-- ===== src/SessionManager/Stop.antt =====
-- What `stop` and a sweep of the cleanup loop leave of the registry, when no other task comes in
-- between.
use factn_assistant_service.Base.{
  ap, ◌+◌, not, leb, false, some, Option, ◌∙◌, eq_iff, sym, inr, eq_refl, str_eq, none, inl, arith,
  Bool-cases, ◌∷◌, map, keep_if, any_of, Option-cases, true, All, [], List, ◌≡◌, ℕ, Bool, String,
  refl,
}
use factn_assistant_service.SessionState.{SessionState, is_idle}
use factn_assistant_service.SessionManager.{
  active_session_ids, stop_all, idle_limit, sweep, Slot, Manager, terminate_all, terminate,
  stale_ids,
}
use factn_assistant_service.Base.Dict.{pop, lookup, Dict}

some_ne_none : (w : Slot) → ◌≡◌ {A = Option Slot} (some w) none → ⊥
some_ne_none w e = cc

pop_absent : (k : String) (d : Dict Slot) → lookup k d ≡ none → pop k d ≡ d
unfolding pop lookup
pop_absent k [] h = refl
pop_absent k ((j, w) ∷ d) h = elim (Bool-cases (str_eq j k)) [
  | inl same ↦ absurd (some_ne_none w (ground (arith, h, same)))
  | inr other ↦ rw (other, pop) (rw (pop_absent k d (ground (arith, h, other))))
]

sessions-terminate :
    (sid : String) (m : Manager) → (terminate sid m).1.sessions ≡ pop sid m.sessions
unfolding terminate
sessions-terminate sid m = elim (Option-cases (lookup sid m.sessions)) [
  | inl gone ↦ rw (gone, terminate) (sym (pop_absent sid m.sessions gone))
  | inr (slot, found) ↦ rw (found, terminate)
]

-- The session's id is among `sids`.
abbrev is_listed : List String → String × Slot → Bool
is_listed sids e = any_of (λ sid. str_eq sid e.0) sids

keep_if-pop :
    (sid : String) (sids : List String) (d : Dict Slot)
    → keep_if (λ e. not (is_listed sids e)) (pop sid d)
      ≡ keep_if (λ e. not (is_listed (sid ∷ sids) e)) d
unfolding pop
keep_if-pop sid sids [] = refl
keep_if-pop sid sids ((j, w) ∷ d) =
    ground (arith, eq_iff j sid, eq_iff sid j, keep_if-pop sid sids d)

keep_none_listed : (d : Dict Slot) → keep_if (λ e. not (is_listed [] e)) d ≡ d
keep_none_listed [] = refl
keep_none_listed (e ∷ d) = rw (keep_none_listed d)

sessions-terminate_all :
    (sids : List String) (m : Manager)
    → (terminate_all sids m).sessions ≡ keep_if (λ e. not (is_listed sids e)) m.sessions
unfolding terminate_all
sessions-terminate_all [] m = sym (keep_none_listed m.sessions)
sessions-terminate_all (sid ∷ sids) m =
    sessions-terminate_all sids (terminate sid m).1
    ∙ rw (sessions-terminate sid m) (keep_if-pop sid sids m.sessions)

-- No two entries share their id, as in a dict of Python.
abbrev pub HaveOwnIds : Dict Slot → Type 0
HaveOwnIds [] = Unit
HaveOwnIds (e ∷ d) = All (λ x. str_eq e.0 x.0 ≡ false) d × HaveOwnIds d

-- The ids of the entries that `p` picks
abbrev picked_ids : (String × Slot → Bool) → Dict Slot → List String
picked_ids p d = map (λ e. e.0) (keep_if p d)

unlisted :
    (p : String × Slot → Bool) (e : String × Slot) (d : Dict Slot)
    → All (λ x. str_eq e.0 x.0 ≡ false) d
    → is_listed (picked_ids p d) e ≡ false
unlisted p e [] h = refl
unlisted p e (x ∷ d) h = elim (Bool-cases (p x)) [
  | inl picked ↦ rw picked (ground (arith, h.0, eq_iff e.0 x.0, eq_iff x.0 e.0, unlisted p e d h.1))
  | inr passed ↦ rw passed (unlisted p e d h.1)
]

-- An id that no entry has changes nothing where it is listed.
keep_if-other_id :
    (sid : String) (sids : List String) (d : Dict Slot)
    → All (λ x. str_eq sid x.0 ≡ false) d
    → keep_if (λ e. not (is_listed (sid ∷ sids) e)) d ≡ keep_if (λ e. not (is_listed sids e)) d
keep_if-other_id sid sids [] h = refl
keep_if-other_id sid sids (e ∷ d) h = ground (arith, h.0, keep_if-other_id sid sids d h.1)

keep_if-picked :
    (p : String × Slot → Bool) (d : Dict Slot)
    → HaveOwnIds d
    → keep_if (λ e. not (is_listed (picked_ids p d) e)) d ≡ keep_if (λ e. not (p e)) d
keep_if-picked p [] h = refl
keep_if-picked p (e ∷ d) h = elim (Bool-cases (p e)) [
  | inl picked ↦
      let listed : picked_ids p (e ∷ d) ≡ e.0 ∷ picked_ids p d = rw picked in
      ap (λ ids. keep_if (λ x. not (is_listed ids x)) (e ∷ d)) listed
      ∙ ground (
        arith,
        picked,
        eq_refl e.0,
        keep_if-other_id e.0 (picked_ids p d) d h.0,
        keep_if-picked p d h.1,
      )
  | inr passed ↦
      let listed : picked_ids p (e ∷ d) ≡ picked_ids p d = rw passed in
      ap (λ ids. keep_if (λ x. not (is_listed ids x)) (e ∷ d)) listed
      ∙ ground (arith, passed, unlisted p e d h.0, keep_if-picked p d h.1)
]

keep_if-agree :
    (p q : String × Slot → Bool) (d : Dict Slot)
    → ((e : String × Slot) → p e ≡ q e)
    → keep_if p d ≡ keep_if q d
keep_if-agree p q [] same = refl
keep_if-agree p q (e ∷ d) same = ground (arith, same e, keep_if-agree p q d same)

idle_iff :
    (monotonic : ℕ) (s : SessionState)
    → not (is_idle monotonic idle_limit s) ≡ leb monotonic (s.last_active + 300_000)
unfolding is_idle
idle_iff monotonic s = ground arith

-- Where no two sessions share their id and no other task comes in between, a sweep of the cleanup loop
-- keeps exactly the sessions whose last activity is at most 300 seconds before the time of the sweep,
-- as they are and in their order.
pub sweep-sessions :
    (monotonic : ℕ) (m : Manager)
    → HaveOwnIds m.sessions
    → (sweep monotonic m).sessions
      ≡ keep_if (λ e. leb monotonic (e.1.state.last_active + 300_000)) m.sessions
unfolding stale_ids sweep
sweep-sessions monotonic m own =
    let idle : String × Slot → Bool = λ e. is_idle monotonic idle_limit e.1.state in
    sessions-terminate_all (stale_ids monotonic m) m
    ∙ keep_if-picked idle m.sessions own
    ∙ keep_if-agree (λ e. not (idle e)) (λ e. leb monotonic (e.1.state.last_active + 300_000))
        m.sessions (λ e. idle_iff monotonic e.1.state)

none_left :
    (sids : List String) (d : Dict Slot)
    → All (λ e. is_listed sids e ≡ true) d
    → keep_if (λ e. not (is_listed sids e)) d ≡ []
none_left sids [] h = refl
none_left sids (e ∷ d) h = ground (arith, h.0, none_left sids d h.1)

more_listed :
    (sid : String) (sids : List String) (d : Dict Slot)
    → All (λ e. is_listed sids e ≡ true) d
    → All (λ e. is_listed (sid ∷ sids) e ≡ true) d
more_listed sid sids [] h = tt
more_listed sid sids (e ∷ d) h = (ground (arith, h.0), more_listed sid sids d h.1)

every_id_listed : (d : Dict Slot) → All (λ e. is_listed (map (λ x. x.0) d) e ≡ true) d
every_id_listed [] = tt
every_id_listed (e ∷ d) =
    (ground (arith, eq_refl e.0), more_listed e.0 (map (λ x. x.0) d) d (every_id_listed d))

-- `stop`, where no other task comes in between, leaves no registered session.
pub stop_leaves_none : (m : Manager) → (stop_all m).sessions ≡ []
unfolding stop_all active_session_ids
stop_leaves_none m =
    let ids = map (λ (e : String × Slot). e.0) m.sessions in
    sessions-terminate_all ids m ∙ none_left ids m.sessions (every_id_listed m.sessions)
