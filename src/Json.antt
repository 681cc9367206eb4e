-- ===== src/Json.antt =====
-- JSON values, as Python's `json` hands them to the program: dicts in their order, lists, texts,
-- numbers, booleans and None. The program computes with no JSON number; it only asks whether
-- one is zero, so numbers are natural here.
use factn_assistant_service.Base.{
  ℕ, String, Bool, true, false, not, Option, none, some, ◌==◌, str_eq, if◌then◌else◌,
}

mutual
  pub data Json : Type 0 where
    null : Json
    bool : Bool → Json
    num : ℕ → Json
    str : String → Json
    arr : Items → Json
    obj : Fields → Json

  pub data Items : Type 0 where
    nil : Items
    cons : Json → Items → Items

  pub data Fields : Type 0 where
    end : Fields
    field : String → Json → Fields → Fields

-- `d.get(key)`; a dict has each key once
unfoldable pub get : String → Fields → Option Json
get key end = none
get key (field k v rest) = if str_eq k key then some v else get key rest

-- `d.get(key, default)`
unfoldable pub get_default : String → Json → Fields → Json
get_default key default fields = elim (get key fields) [ none ↦ default | some v ↦ v ]

-- `key in d`
unfoldable pub has_key : String → Fields → Bool
has_key key fields = elim (get key fields) [ none ↦ false | some _ ↦ true ]

-- `bool(v)`
unfoldable pub truthy : Json → Bool
truthy null = false
truthy (bool b) = b
truthy (num n) = not (n == 0)
truthy (str s) = not (str_eq s "")
truthy (arr nil) = false
truthy (arr (cons _ _)) = true
truthy (obj end) = false
truthy (obj (field _ _ _)) = true
