-- ===== src/Content/Youtube/Similarity.antt =====
-- scraping/youtube/utils.py: the similarity of texts, by their words. `words` is `text.lower().split()`.
mod Tests
pub mod Laws
use Prim.Native.String.{◌++◌ as str_append}
use custom_scraper.Content.Youtube.{Segment}
use custom_scraper.Prelude.{
  Bool, List, Option, String, [], false, if◌then◌else◌, leb, length, max, member, none, some,
  string_key, suc, true, ℕ, ◌*◌, ◌==◌, ◌||◌, ◌∷◌,
}

-- `set(words)`
unfoldable pub distinct : List String → List String
distinct [] = []
distinct (w ∷ ws) = let rest = distinct ws in if member w ws then rest else w ∷ rest

-- `len(words1.intersection(words2))`
unfoldable pub overlap : List String → List String → ℕ
overlap [] vs = 0
overlap (w ∷ ws) vs = if member w vs then suc (overlap ws vs) else overlap ws vs

-- The comparison of two sets of words with a threshold in percent; `none` is a division by zero.
unfoldable pub similar_words : ℕ → List String → List String → Option Bool
unfolding overlap
similar_words threshold ws vs =
    let most = max (length ws) (length vs) in
    if most == 0 then none else some (leb (threshold * most) (100 * overlap ws vs))

module _ (words : String → List String) where
  unfoldable pub texts_are_similar : ℕ → String → String → Option Bool
  unfolding distinct similar_words
  texts_are_similar threshold text1 text2 =
      if string_key.same text1 "" || string_key.same text2 ""
      then some (string_key.same text1 text2)
      else similar_words threshold (distinct (words text1)) (distinct (words text2))

  -- `" ".join(texts)`
  unfoldable pub joined : List Segment → String
  joined [] = ""
  joined (s ∷ []) = s.text
  joined (s ∷ t ∷ ts) = str_append s.text (str_append " " (joined (t ∷ ts)))

  unfoldable pub transcripts_are_similar : ℕ → List Segment → List Segment → Option Bool
  unfolding joined texts_are_similar
  transcripts_are_similar threshold [] [] = some true
  transcripts_are_similar threshold [] (t ∷ ts) = some false
  transcripts_are_similar threshold (s ∷ ss) [] = some false
  transcripts_are_similar threshold (s ∷ ss) (t ∷ ts) =
      texts_are_similar threshold (joined (s ∷ ss)) (joined (t ∷ ts))
