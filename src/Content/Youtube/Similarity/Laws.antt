-- ===== src/Content/Youtube/Similarity/Laws.antt =====
-- The similarity of texts does not depend on their order, and every text is similar to itself.
use custom_scraper.Content.Youtube.Similarity.{distinct, overlap, similar_words, texts_are_similar}
use custom_scraper.Prelude.{
  All, All-map, Bool, IsDistinct, List, String, [], arith, false, if◌then◌else◌, length, member,
  none, not, refl, same_refl, some, string_key, sym, true, ℕ, ◌&&◌, ◌+◌, ◌==◌, ◌∙◌, ◌∷◌, ◌≡◌, ◌≤◌,
}
use native.Mathlib.Nat.{max_comm, mul-le-mul_right}

distinct_member : (w : String) (ws : List String) → member w (distinct ws) ≡ member w ws
unfolding distinct member
distinct_member w [] = refl
distinct_member w (v ∷ vs) = ground (arith, string_key.same_iff v w, distinct_member w vs)

distinct-IsDistinct : (ws : List String) → IsDistinct (distinct ws)
unfolding distinct
distinct-IsDistinct [] = tt
distinct-IsDistinct (w ∷ ws) = by_member (member w ws) refl (distinct-IsDistinct ws)
  where
    by_member :
        (b : Bool)
        → member w ws ≡ b
        → IsDistinct (distinct ws)
        → IsDistinct (if b then distinct ws else w ∷ distinct ws)
    by_member true same d = d
    by_member false same d = (distinct_member w ws ∙ same, d)

-- One more word is in the overlap once, if the other words hold it.
overlap_cons :
    (w : String) (ws vs : List String)
    → member w ws ≡ false
    → IsDistinct vs
    → overlap vs (w ∷ ws) ≡ overlap vs ws + (if member w vs then 1 else 0)
unfolding overlap member
overlap_cons w ws [] h d = refl
overlap_cons w ws (v ∷ vs) h d =
    ground
      (arith, string_key.same_iff v w, string_key.same_iff w v, overlap_cons w ws vs h d.1, d.0)

overlap_nil : (vs : List String) → overlap vs [] ≡ 0
unfolding overlap member
overlap_nil [] = refl
overlap_nil (v ∷ vs) = overlap_nil vs

overlap_comm : (ws vs : List String) → IsDistinct ws → IsDistinct vs → overlap ws vs ≡ overlap vs ws
unfolding overlap
overlap_comm [] vs d e = sym (overlap_nil vs)
overlap_comm (w ∷ ws) vs d e = ground (arith, overlap_comm ws vs d.1 e, overlap_cons w ws vs d.0 e)

-- The words of one text that are all in another are the overlap.
overlap_all : (ws vs : List String) → All (λ w. member w vs ≡ true) ws → overlap ws vs ≡ length ws
unfolding overlap
overlap_all [] vs h = refl
overlap_all (w ∷ ws) vs h = ground (arith, overlap_all ws vs h.1)

All-member_self : (ws : List String) → All (λ w. member w ws ≡ true) ws
unfolding member
All-member_self [] = tt
All-member_self (w ∷ ws) = (
  ground (arith, same_refl w),
  All-map {Q = λ v. member v (w ∷ ws) ≡ true} ws (λ v h. ground (arith, h)) (All-member_self ws),
)

similar_words_comm :
    (threshold : ℕ) (ws vs : List String)
    → IsDistinct ws
    → IsDistinct vs
    → similar_words threshold ws vs ≡ similar_words threshold vs ws
unfolding similar_words
similar_words_comm threshold ws vs d e =
    ground (arith, overlap_comm ws vs d e, max_comm (length ws) (length vs))

same_comm : (t u : String) → string_key.same t u ≡ string_key.same u t
same_comm t u = ground (arith, string_key.same_iff t u, string_key.same_iff u t)

-- Whatever the threshold and the words of a text: the answer is the same when the two texts change places.
pub texts_are_similar_comm :
    (words : String → List String) (threshold : ℕ) (text1 text2 : String)
    → texts_are_similar words threshold text1 text2 ≡ texts_are_similar words threshold text2 text1
unfolding texts_are_similar
texts_are_similar_comm words threshold t u = ground (
  arith,
  same_comm t u,
  similar_words_comm threshold (distinct (words t)) (distinct (words u))
      (distinct-IsDistinct (words t)) (distinct-IsDistinct (words u)),
)

-- With a threshold of at most 100 percent a text is similar to itself, unless it is not empty and has no word: then the
-- function divides by zero.
pub texts_are_similar_refl :
    (words : String → List String) (threshold : ℕ) (t : String)
    → threshold ≤ 100
    → texts_are_similar words threshold t t
      ≡ (if not (string_key.same t "") && length (distinct (words t)) == 0 then none else some true)
unfolding texts_are_similar similar_words
texts_are_similar_refl words threshold t h = ground (
  arith,
  same_refl t,
  overlap_all (distinct (words t)) (distinct (words t)) (All-member_self (distinct (words t))),
  mul-le-mul_right (length (distinct (words t))) h,
)
