-- ===== src/Content/Youtube/Similarity/Tests.antt =====
-- Runs of the comparison of texts.
use custom_scraper.Content.Youtube.Similarity.{texts_are_similar}
use custom_scraper.Content.Youtube.Similarity.Laws.{texts_are_similar_comm}
use custom_scraper.Prelude.{
  List, String, [], false, if◌then◌else◌, member, none, refl, some, string_key, true, ◌∷◌, ◌≡◌,
}

-- The words of the texts that are used here.
abbrev words : String → List String
words text = if string_key.same text "a b c b" then "a" ∷ "b" ∷ "c" ∷ "b" ∷ [] else "b" ∷ "c" ∷ []

two_of_three : texts_are_similar words 66 "a b c b" "b c" ≡ some true
unfolding texts_are_similar member
two_of_three = refl

not_enough : texts_are_similar words 67 "a b c b" "b c" ≡ some false
unfolding texts_are_similar member
not_enough = refl

-- Two texts without a word: a division by zero.
blank : texts_are_similar (λ t. []) 80 " " "  " ≡ none
unfolding texts_are_similar
blank = refl

texts_are_similar_comm_example :
    texts_are_similar words 66 "a b c b" "b c" ≡ texts_are_similar words 66 "b c" "a b c b"
texts_are_similar_comm_example = texts_are_similar_comm words 66 "a b c b" "b c"
