-- ===== src/Agent/Model/Fake.antt =====
-- packages/agent/src/model/fake-model-provider.ts: the provider without a network.
use Prim.Native.Char.{code}
use Prim.Native.String.{◌++◌ as text_append}
use workspace_os.Base.{
  ℕ, ◌+◌, ◌≤◌, String, Bool, true, false, List, [], ◌∷◌, Option, none, some, ◌≡◌, refl, arith,
  or_else, if◌then◌else◌, leb, length, ◌++◌, All,
}
use workspace_os.Base.Text.{is_white, trim}
use workspace_os.Agent.Model.Gateway.{
  ModelMessageRole, user, ModelMessage, ModelCompletionRequest, ModelCompletionResult,
}

-- `text.split(/\s+/).filter(Boolean).length`: the characters that begin a word; `inside` says whether
-- the text goes on in the middle of one
unfoldable pub words : Bool → String → ℕ
words inside String.[] = 0
words inside (String.◌∷◌ c s) =
    let outside_rest = words false s in
    let inside_rest = words true s in
    if is_white (code c) then outside_rest else if inside then inside_rest else 1 + inside_rest

-- `Math.max(1, words)`
unfoldable pub word_count : String → ℕ
word_count text = let count = words false (trim text) in if leb count 1 then 1 else count

abbrev pub is_user : ModelMessageRole → Bool
is_user user = true
is_user _ = false

-- `[...messages].reverse().find((m) => m.role === "user")`
unfoldable pub last_user : List ModelMessage → Option ModelMessage
last_user [] = none
last_user (m ∷ more) = elim (last_user more) [
  | some later ↦ some later
  | none ↦ if is_user m.role then some m else none
]

abbrev pub content_of : Option ModelMessage → String
content_of none = ""
content_of (some m) = m.content

unfoldable pub sum_words : List ModelMessage → ℕ
sum_words [] = 0
sum_words (m ∷ more) = word_count m.content + sum_words more

-- the canned response, or the echo of the last message of the user
abbrev pub reply_text : Option String → List ModelMessage → String
reply_text response messages =
    or_else response (text_append "echo: " (content_of (last_user messages)))

-- `response` is the option of the provider
unfoldable pub complete : Option String → ModelCompletionRequest → ModelCompletionResult
complete response request =
    let content = reply_text response request.messages in
    record {
      content = content;
      usage = record {
        prompt_tokens = sum_words request.messages;
        completion_tokens = word_count content;
      };
    }

word_count_pos : (t : String) → 1 ≤ word_count t
unfolding word_count
word_count_pos t = ground arith

sum_words-length : (messages : List ModelMessage) → length messages ≤ sum_words messages
unfolding sum_words
sum_words-length [] = ground arith
sum_words-length (m ∷ more) = grind (arith, word_count_pos m.content, sum_words-length more)

no_user :
    (after : List ModelMessage) → All (λ m. is_user m.role ≡ false) after → last_user after ≡ none
unfolding last_user
no_user [] h = refl
no_user (m ∷ more) (h, hs) = rw (no_user more hs) (rw h refl)

last_user-append :
    (before after : List ModelMessage) (m : ModelMessage)
    → is_user m.role ≡ true
    → All (λ x. is_user x.role ≡ false) after
    → last_user (before ++ m ∷ after) ≡ some m
unfolding last_user
last_user-append [] after m h none_after = rw (no_user after none_after) (rw h refl)
last_user-append (x ∷ before) after m h none_after =
    rw (last_user-append before after m h none_after) refl

-- A completion counts at least one token for every message and for its answer. The answer is the
-- canned response if there is one, and otherwise the echo of the last message of the user.
pub fake_completes :
    (response : Option String) (request : ModelCompletionRequest)
    → (length request.messages ≤ (complete response request).usage.prompt_tokens)
      × (1 ≤ (complete response request).usage.completion_tokens)
      × ((before after : List ModelMessage) (m : ModelMessage)
          → request.messages ≡ before ++ m ∷ after
          → is_user m.role ≡ true
          → All (λ x. is_user x.role ≡ false) after
          → (complete response request).content ≡ or_else response (text_append "echo: " m.content))
unfolding complete
fake_completes response request = (
  sum_words-length request.messages,
  word_count_pos (reply_text response request.messages),
  λ before after m e h none_after. rw (e, last_user-append before after m h none_after) refl,
)
