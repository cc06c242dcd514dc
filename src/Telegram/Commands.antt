-- ===== src/Telegram/Commands.antt =====
-- The commands that a message can carry.
use Prim.Native.Char.{Char}
use Prim.Native.String as S
use runlane.Prelude.{String, Bool, true, false, not, ◌&&◌, ◌≡◌, refl, List, [], ◌∷◌, ok, arith}
use text.Mathlib.TextLemmas.{nil-append, cons-append}
use runlane.Text.{is_whitespace, push_word, cut_word, split_whitespace}
use runlane.Telegram.{
  TelegramApprovalCommand, show_command, approve_command, reject_command, parse, parse_parts,
}

-- no character of the text is white space
unfoldable pub is_solid : String → Bool
is_solid S.[] = true
is_solid (S.◌∷◌ c s) = let rest = is_solid s in not (is_whitespace c) && rest

-- a word: not empty, and without white space
unfoldable pub is_word : String → Bool
is_word S.[] = false
is_word (S.◌∷◌ c s) = is_solid (S.◌∷◌ c s)

cut_word-solid : (s : String) → is_solid s ≡ true → cut_word s ≡ (s, [])
unfolding is_solid cut_word
cut_word-solid S.[] h = refl
cut_word-solid (S.◌∷◌ c s) h =
    let space : is_whitespace c ≡ false = ground arith in
    rw (cut_word-solid s (ground arith), space) refl

cut_word-append :
    (s : String) (c : Char) (rest : String)
    → is_solid s ≡ true
    → is_whitespace c ≡ true
    → cut_word (S.◌++◌ s (S.◌∷◌ c rest)) ≡ (s, split_whitespace rest)
unfolding is_solid cut_word split_whitespace
cut_word-append S.[] c rest h space = rw (nil-append (S.◌∷◌ c rest), space) refl
cut_word-append (S.◌∷◌ d s) c rest h space =
    let inside : is_whitespace d ≡ false = ground arith in
    rw (cons-append d s (S.◌∷◌ c rest), cut_word-append s c rest (ground arith) space, inside) refl

is_word-solid : (s : String) → is_word s ≡ true → is_solid s ≡ true
unfolding is_word
is_word-solid S.[] h = cc
is_word-solid (S.◌∷◌ c s) h = h

push_word-word : (s : String) (rest : List String) → is_word s ≡ true → push_word s rest ≡ s ∷ rest
unfolding is_word
push_word-word S.[] rest h = cc
push_word-word (S.◌∷◌ c s) rest h = refl

-- a word, white space and the rest of a message
abbrev pub after_word : String → Char → String → String
after_word word space rest = S.◌++◌ word (S.◌∷◌ space rest)

split-last : (s : String) → is_word s ≡ true → split_whitespace s ≡ s ∷ []
unfolding split_whitespace
split-last s h = rw (cut_word-solid s (is_word-solid s h)) (push_word-word s [] h)

split-after_word :
    (word : String) (space : Char) (rest : String)
    → is_word word ≡ true
    → is_whitespace space ≡ true
    → split_whitespace (after_word word space rest) ≡ word ∷ split_whitespace rest
unfolding split_whitespace
split-after_word word space rest h e =
    rw (cut_word-append word space rest (is_word-solid word h) e) (push_word-word word _ h)

-- the verbs of `/approval` that take an id, with the word and the command of each
pub data Verb : Type 0 where
  show_verb approve_verb reject_verb : Verb

abbrev pub word_of : Verb → String
word_of show_verb = "show"
word_of approve_verb = "approve"
word_of reject_verb = "reject"

abbrev pub command_of : Verb → String → TelegramApprovalCommand
command_of show_verb = show_command
command_of approve_verb = approve_command
command_of reject_verb = reject_command

-- A message of `/approval`, a verb and an id that is a word, with one white space character of any
-- kind before the verb and before the id, is parsed to the command of the verb with that very id.
pub parse-verb :
    (verb : Verb) (id : String) (first second : Char)
    → is_word id ≡ true
    → is_whitespace first ≡ true
    → is_whitespace second ≡ true
    → parse (after_word "/approval" first (after_word (word_of verb) second id))
      ≡ ok (command_of verb id)
unfolding parse parse_parts is_word is_solid
parse-verb show_verb id first second h e f =
    rw
      (
        split-after_word "/approval" first (after_word "show" second id) refl e,
        split-after_word "show" second id refl f,
        split-last id h,
      )
      refl
parse-verb approve_verb id first second h e f =
    rw
      (
        split-after_word "/approval" first (after_word "approve" second id) refl e,
        split-after_word "approve" second id refl f,
        split-last id h,
      )
      refl
parse-verb reject_verb id first second h e f =
    rw
      (
        split-after_word "/approval" first (after_word "reject" second id) refl e,
        split-after_word "reject" second id refl f,
        split-last id h,
      )
      refl
