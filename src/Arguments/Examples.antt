-- ===== src/Arguments/Examples.antt =====
-- Runs of `split_arguments` on lines a user might type.
use itba_os_tp1_ipc_2016_q.Base.{
  ◌≡◌, refl, arith, List, [], ◌∷◌, ◌++◌, none, some, Bytes, codes, All,
}
use itba_os_tp1_ipc_2016_q.Arguments.{split_arguments}
use itba_os_tp1_ipc_2016_q.Arguments.Refines.{tokens, with_end, split_arguments-tokens}
use itba_os_tp1_ipc_2016_q.Arguments.Words.{IsWord}

abbrev post_line : List Bytes
post_line = codes "post" ∷ codes "\"my file\"" ∷ codes "a.txt" ∷ []

post_words : split_arguments (codes "  post \"my file\"  a.txt ") ≡ some (post_line ++ [] ∷ [])
unfolding split_arguments
post_words = refl

open_quote : split_arguments (codes "sends \"hi") ≡ none
unfolding split_arguments
open_quote = refl

-- A space at the end hides the open quotation, and the word is lost.
lost_word : split_arguments (codes "sends \"hi ") ≡ some (codes "sends" ∷ [] ∷ [])
unfolding split_arguments
lost_word = refl

post_line-All : All IsWord post_line
post_line-All = (
  IsWord.plain (codes "post") (λ e. cc) (omega arith) (omega arith),
  (
    IsWord.quoted (codes "my file") (codes "\"my file\"") (omega arith) refl,
    (IsWord.plain (codes "a.txt") (λ e. cc) (omega arith) (omega arith), tt),
  ),
)

split_arguments-tokens_example :
    split_arguments (codes "get \"a b\"") ≡ with_end (tokens (codes "get \"a b\""))
split_arguments-tokens_example = split_arguments-tokens (codes "get \"a b\"")
