-- ===== src/GeminiRunner/Config.antt =====
-- `build_gemini_config` of core/gemini_runner.py: the configuration that a Gemini session is opened with.
-- The fields are those that the source sets in the classes of the SDK; a dict of a function declaration
-- is a record. A temperature counts tenths.
use factn_assistant_service.Base.{
  map, false, true, some, ℕ, none, [], ◌∷◌, Option, Bool, String, List,
}
use factn_assistant_service.Json.{Json}
use factn_assistant_service.ToolExecutor.Defs.{ToolDefinition}
use factn_assistant_service.Schemas.{ProjectConfig}

pub data Modality : Type 0 where
  audio : Modality

pub record FunctionDeclaration : Type 0 where
  pub name : String
  pub description : String
  pub parameters : Json

pub record LiveConnectConfig : Type 0 where
  pub response_modalities : List Modality
  pub system_instruction : String
  pub output_audio_transcription : Bool
  pub input_audio_transcription : Bool
  pub thinking_budget : ℕ
  pub include_thoughts : Bool
  pub voice_name : String
  pub temperature : ℕ
  pub activity_detection_disabled : Bool
  pub tools : Option (List FunctionDeclaration)

unfoldable pub declare_tool : ToolDefinition → FunctionDeclaration
declare_tool t = record { name = t.name; description = t.description; parameters = t.parameters }

-- `if function_declarations:`
unfoldable pub declared_tools : List FunctionDeclaration → Option (List FunctionDeclaration)
declared_tools [] = none
declared_tools (d ∷ ds) = some (d ∷ ds)

unfoldable pub build_gemini_config : ProjectConfig → LiveConnectConfig
build_gemini_config project = record {
  response_modalities = audio ∷ [];
  system_instruction = project.system_prompt;
  output_audio_transcription = true;
  input_audio_transcription = true;
  thinking_budget = 0;
  include_thoughts = false;
  voice_name = project.voice_config.voice_name;
  temperature = 7;
  activity_detection_disabled = true;
  tools = declared_tools (map declare_tool project.tools);
}
