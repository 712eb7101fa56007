-- ===== src/Agent/Model/Anthropic.antt =====
-- packages/agent/src/model/anthropic-model-provider.ts: what the provider sends to the SDK's client
-- and what it makes of the answer. The client is a parameter.
use Prim.Native.String.{◌++◌ as text_append}
use workspace_os.Base.{
  ℕ, String, Bool, true, false, List, ◌∷◌, [], Option, none, some, Result, ok, err, if◌then◌else◌,
  or_else, ◌==◌,
}
use workspace_os.Base.Number.{Number, of_ℕ}
use workspace_os.Agent.Model.Gateway.{
  ModelMessageRole, system, user, assistant, ModelMessage, ModelCompletionRequest,
  ModelCompletionResult,
}

pub record AnthropicParams : Type 0 where
  pub model : String
  pub max_tokens : Number
  pub system_text : Option String
  pub messages : List ModelMessage
  pub temperature : Option Number

pub record ContentBlock : Type 0 where
  pub type : String
  pub text : Option String

pub record AnthropicResponse : Type 0 where
  pub content : List ContentBlock
  pub input_tokens : ℕ
  pub output_tokens : ℕ

pub record AnthropicModelProviderOptions : Type 0 where
  pub default_max_tokens : Option Number

-- `texts.join(separator)`
unfoldable pub join : String → List String → String
join separator [] = ""
join separator (t ∷ []) = t
join separator (t ∷ u ∷ more) = text_append t (text_append separator (join separator (u ∷ more)))

abbrev pub is_system : ModelMessageRole → Bool
is_system system = true
is_system _ = false

abbrev pub is_turn : ModelMessageRole → Bool
is_turn user = true
is_turn assistant = true
is_turn _ = false

unfoldable pub system_texts : List ModelMessage → List String
system_texts [] = []
system_texts (m ∷ more) =
    let rest = system_texts more in if is_system m.role then m.content ∷ rest else rest

unfoldable pub turns : List ModelMessage → List ModelMessage
turns [] = []
turns (m ∷ more) = let rest = turns more in if is_turn m.role then m ∷ rest else rest

-- a text block without a text counts as empty
unfoldable pub text_blocks : List ContentBlock → List String
text_blocks [] = []
text_blocks (b ∷ more) =
    let rest = text_blocks more in if b.type == "text" then or_else b.text "" ∷ rest else rest

unfoldable pub params_of : AnthropicModelProviderOptions → ModelCompletionRequest → AnthropicParams
params_of options request =
    let hoisted = join "\n\n" (system_texts request.messages) in
    record {
      model = request.model;
      max_tokens = or_else request.max_tokens (or_else options.default_max_tokens (of_ℕ 4096));
      system_text = if hoisted == "" then none else some hoisted;
      messages = turns request.messages;
      temperature = request.temperature;
    }

unfoldable pub result_of : AnthropicResponse → ModelCompletionResult
result_of response = record {
  content = join "" (text_blocks response.content);
  usage = record {
    prompt_tokens = response.input_tokens;
    completion_tokens = response.output_tokens;
  };
}

unfoldable pub complete :
    {Failure : Type 0}
    → (AnthropicParams → Result Failure AnthropicResponse)
    → AnthropicModelProviderOptions
    → ModelCompletionRequest
    → Result Failure ModelCompletionResult
complete client options request = elim (client (params_of options request)) [
  | err e ↦ err e
  | ok response ↦ ok (result_of response)
]
