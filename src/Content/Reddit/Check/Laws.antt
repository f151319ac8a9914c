-- ===== src/Content/Reddit/Check/Laws.antt =====
-- When the contents agree in the checks before those of the numbers.
use Prim.Native.String.{count}
use custom_scraper.Content.{
  DataEntity, SameFields, are_non_content_fields_equal_lem, obfuscate_datetime_to_minute,
}
use custom_scraper.Content.Reddit.{
  Reason, RedditContent, RedditDataType, body_differs, comment, community_differs, id_differs, post,
  url_differs, username_differs,
}
use custom_scraper.Content.Reddit.Check.{
  check_after_parent, check_content, check_kind, check_parent, check_texts, compare_entity,
  to_data_entity, type_same,
}
use custom_scraper.Prelude.{
  List, Option, String, arith, if◌then◌else◌, inl, inr, none, not, option_same_iff, refl, some,
  string_key, sym, true, ℕ, ◌↔◌, ◌≡◌, ◌≤◌, ◌⊎◌,
}
use custom_scraper.Prelude.Iff.{first_problem, first_problem_iff, iff_both, iff_trans, unless_iff}
use mathlib.Core.Path.{subst}
use mathlib.Core.Sum.{inr-injective}

abbrev pub SameTexts : RedditContent → RedditContent → Type 0
SameTexts s a =
    (s.id ≡ a.id)
    × ((s.url ≡ a.url)
        × ((s.username ≡ a.username) × ((s.community ≡ a.community) × (s.body ≡ a.body))))

text_last :
    (t u : String) (reason : Reason)
    → ((if not (string_key.same t u) then some reason else none) ≡ none) ↔ (t ≡ u)
text_last t u reason =
    (λ h. ground (arith, string_key.same_iff t u), λ h. ground (arith, string_key.same_iff t u))

text_first :
    (t u : String) (reason : Reason) {rest : Option Reason} {P : Type 0}
    → ((rest ≡ none) ↔ P)
    → ((if not (string_key.same t u) then some reason else rest) ≡ none) ↔ ((t ≡ u) × P)
text_first t u reason {rest} h =
    iff_trans (unless_iff (string_key.same t u) reason rest) (iff_both (string_key.same_iff t u) h)

check_texts_lem : (s a : RedditContent) → (check_texts s a ≡ none) ↔ SameTexts s a
unfolding check_texts
check_texts_lem s a = text_first s.id a.id id_differs (
    text_first s.url a.url url_differs (
      text_first s.username a.username username_differs (
        text_first s.community a.community community_differs
          (text_last s.body a.body body_differs))))

type_same_iff : (s a : RedditDataType) → (type_same s a ≡ true) ↔ (s ≡ a)
unfolding type_same
type_same_iff post post = (λ h. refl, λ h. refl)
type_same_iff post comment = (λ h. cc, λ h. cc)
type_same_iff comment post = (λ h. cc, λ h. cc)
type_same_iff comment comment = (λ h. refl, λ h. refl)

-- The instant is the one that was found, without its seconds, and the kind and the title are those that were found.
abbrev pub SameKind : RedditContent → RedditContent → Type 0
SameKind s a =
    (s.created_at ≡ obfuscate_datetime_to_minute a.created_at)
    × (s.data_type ≡ a.data_type)
    × (s.title ≡ a.title)

check_kind_lem : (s a : RedditContent) → (check_kind s a ≡ none) ↔ SameKind s a
unfolding check_kind
check_kind_lem s a = (
  λ h. ground (arith, type_same_iff s.data_type a.data_type, option_same_iff s.title a.title),
  λ h. ground (arith, type_same_iff s.data_type a.data_type, option_same_iff s.title a.title),
)

-- The parents that pass, and the parent that is left: without one on both sides none, and with two of them, of which the
-- claimed is no longer than the other, the other if they are the same, and else none.
abbrev pub ParentFits : Option String → Option String → Option String → Type 0
ParentFits none none left = left ≡ none
ParentFits none (some parent) left = ⊥
ParentFits (some claimed) none left = ⊥
ParentFits (some claimed) (some parent) left =
    (count claimed ≤ count parent)
    × (left ≡ (if string_key.same claimed parent then some parent else none))

check_parent_lem : (c p left : Option String) → (check_parent c p ≡ inr left) ↔ ParentFits c p left
unfolding check_parent
check_parent_lem none none left = (λ h. ground arith, λ h. ground arith)
check_parent_lem none (some p) left = (λ h. cc, λ h. elim h [ ])
check_parent_lem (some c) none left = (λ h. cc, λ h. elim h [ ])
check_parent_lem (some c) (some p) left = (λ h. ground arith, λ h. ground arith)

-- The entity has the fields of the other one, and claims no more bytes than that has.
abbrev pub EntityFits : Option DataEntity → DataEntity → Type 0
EntityFits none e = ⊥
EntityFits (some actual) e =
    (e.content_size_bytes ≤ actual.content_size_bytes) × SameFields actual e

compare_entity_lem :
    (actual : Option DataEntity) (e : DataEntity)
    → (compare_entity actual e ≡ none) ↔ EntityFits actual e
unfolding compare_entity
compare_entity_lem none e = (λ h. cc, λ h. elim h [ ])
compare_entity_lem (some a) e =
    let same = are_non_content_fields_equal_lem a e in
    (λ h. ground (arith, same), λ h. ground (arith, same))

module _ (lower : String → String) (first : ℕ → String → String)
    (encode : RedditContent → List ℕ) where
  -- What a content that was submitted has to meet before the checks of its numbers.
  abbrev pub ContentFits : RedditContent → RedditContent → DataEntity → Type 0
  ContentFits s a e =
      SameTexts s a
      × (SameKind s a
          × ((parent : Option String) × (ParentFits s.parent_id a.parent_id parent
                × EntityFits (to_data_entity lower first encode (record a { parent_id = parent }))
                    e)))

  parent_lem :
      (a : RedditContent) (e : DataEntity) (r : Reason ⊎ Option String)
      → (check_after_parent lower first encode a e r ≡ none) ↔ (
          (parent : Option String) × ((r ≡ inr parent)
            × EntityFits (to_data_entity lower first encode (record a { parent_id = parent })) e))
  unfolding check_after_parent
  parent_lem a e (inl reason) = (λ h. cc, λ h. cc (h.1.0))
  parent_lem a e (inr parent) =
      let (to, from) =
        compare_entity_lem (to_data_entity lower first encode (record a { parent_id = parent }))
          e in
      (
        λ h. (parent, (refl, to h)),
        λ (left, (same, fits)). from (
            subst
              (λ (p : Option String).
                EntityFits (to_data_entity lower first encode (record a { parent_id = p })) e)
              (sym (inr-injective parent left same)) fits),
      )

  pub check_content_lem :
      (s a : RedditContent) (e : DataEntity)
      → (check_content lower first encode s a e ≡ none) ↔ ContentFits s a e
  unfolding check_content
  check_content_lem s a e =
      let parents = parent_lem a e (check_parent s.parent_id a.parent_id) in
      let rest = check_after_parent lower first encode a e (check_parent s.parent_id a.parent_id) in
      iff_trans (first_problem_iff (check_texts s a) (first_problem (check_kind s a) rest)) (
        iff_both (check_texts_lem s a) (
          iff_trans (first_problem_iff (check_kind s a) rest) (
            iff_both (check_kind_lem s a) (
              iff_trans parents (
                λ (p, (same, fits)).
                    (p, ((check_parent_lem s.parent_id a.parent_id p).0 same, fits)),
                λ (p, (same, fits)).
                    (p, ((check_parent_lem s.parent_id a.parent_id p).1 same, fits)),
              )))))
