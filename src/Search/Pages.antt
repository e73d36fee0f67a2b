-- ===== src/Search/Pages.antt =====
-- The windows of one list of hits (internal/search/memory.go).
use bsystem_integration_core.Base.{
  ℕ, zero, suc, ◌+◌, ◌≤◌, ◌≡◌, refl, inl, inr, arith, true, false, ◌&&◌, ltb, Bool-cases, some,
  List, [], ◌∷◌, ◌++◌, if◌then◌else◌, sym, subst, ◌∙◌, ap, length,
}
use bsystem_integration_core.Base.Int.{ℤ, pos, negsuc, pos_part, ltb_ℤ}
use bsystem_integration_core.Search.{tokenize}
use bsystem_integration_core.Search.Memory.{
  Documents, Query, Hit, Page, matching, sort_hits, take, drop, cut, page_of, no_results, search,
  is_nil, passes_type, passes_permission, score_of,
}
use Prim.Native.Char.{Char}
use Prim.Native.String.{String}

module _ {A : Type 0} where
  drop_all : (n : ℕ) (xs : List A) → length xs ≤ n → drop n xs ≡ []
  unfolding drop
  drop_all zero [] h = refl
  drop_all zero (x ∷ xs) h = absurd (omega (arith, h))
  drop_all (suc n) [] h = refl
  drop_all (suc n) (x ∷ xs) h = drop_all n xs (omega (arith, h))

  drop_add : (m n : ℕ) (xs : List A) → drop (m + n) xs ≡ drop n (drop m xs)
  unfolding drop
  drop_add zero n xs = ap (λ k. drop k xs) (omega arith)
  drop_add (suc m) n [] = drop_all (suc m + n) [] (omega arith) ∙ sym (drop_all n [] (omega arith))
  drop_add (suc m) n (x ∷ xs) = ap (λ k. drop k (x ∷ xs)) (the_sum) ∙ drop_add m n xs
    where
      the_sum : suc m + n ≡ suc (m + n)
      the_sum = omega arith

  take-drop : (n : ℕ) (xs : List A) → take n xs ++ drop n xs ≡ xs
  unfolding take drop
  take-drop zero xs = refl
  take-drop (suc n) [] = refl
  take-drop (suc n) (x ∷ xs) = ap (λ r. x ∷ r) (take-drop n xs)

  length-take : (n : ℕ) (xs : List A) → n ≤ length xs → length (take n xs) ≡ n
  unfolding take
  length-take zero xs h = refl
  length-take (suc n) [] h = absurd (omega (arith, h))
  length-take (suc n) (x ∷ xs) h = ap suc (length-take n xs (omega (arith, h)))

  append_nil : (xs : List A) → xs ++ [] ≡ xs
  append_nil [] = refl
  append_nil (x ∷ xs) = ap (λ r. x ∷ r) (append_nil xs)

-- An offset past the end is the end.
drop_clipped :
    (n : ℕ) (hs : List Hit) → drop (if ltb (length hs) n then length hs else n) hs ≡ drop n hs
drop_clipped n hs = elim (Bool-cases (ltb (length hs) n)) [
  | inl past ↦
      rw past (drop_all (length hs) hs (omega arith) ∙ sym (drop_all n hs (ground (arith, past))))
  | inr within ↦ rw within refl
]

cut-rest : (limit : ℤ) (hs : List Hit) → cut limit hs ++ drop (length (cut limit hs)) hs ≡ hs
cut-rest limit hs = elim (Bool-cases (ltb_ℤ (pos 0) limit && ltb_ℤ limit (pos (length hs)))) [
  | inl shorter ↦ rw shorter (
      ap (λ n. take (pos_part limit) hs ++ drop n hs)
        (length-take (pos_part limit) hs (fits limit shorter))
      ∙ take-drop (pos_part limit) hs)
  | inr whole ↦ rw whole (ap (λ r. hs ++ r) (drop_all (length hs) hs (omega arith)) ∙ append_nil hs)
]
  where
    fits : (l : ℤ) → (ltb_ℤ (pos 0) l && ltb_ℤ l (pos (length hs))) ≡ true → pos_part l ≤ length hs
    fits (pos n) h = ground (arith, h)
    fits (negsuc n) h = ground (arith, h)

page_hits : (q : Query) (hs : List Hit) → (page_of q hs).hits ≡ cut q.limit (drop q.offset hs)
unfolding page_of
page_hits q hs = ap (cut q.limit) (drop_clipped q.offset hs)

-- All that is left from an offset on.
abbrev pub from : Query → ℕ → Query
from q n = record q { offset = n; limit = pos 0 }

matching-from :
    (lower : Char → Char) (q : Query) (n : ℕ) (terms : List String) (docs : Documents)
    → matching lower (from q n) terms docs ≡ matching lower q terms docs
unfolding matching
matching-from lower q n terms [] = refl
matching-from lower q n terms (d ∷ ds) =
    ap
      (λ rest.
        if passes_type q d && passes_permission q d && ltb 0 (score_of lower d terms)
        then (record { document = d; score = score_of lower d terms }) ∷ rest
        else rest)
      (matching-from lower q n terms ds)

search_page :
    (lower : Char → Char) (q : Query) (n : ℕ) (docs : Documents)
    → is_nil (tokenize lower q.text) ≡ false
    → search lower false (from q n) docs
      ≡ some (page_of (from q n) (sort_hits (matching lower q (tokenize lower q.text) docs)))
unfolding search
search_page lower q n docs h = rw h (
    ap (λ hs. some (page_of (from q n) (sort_hits hs)))
      (matching-from lower q n (tokenize lower q.text) docs))

-- The hits of a page and those after it are the hits from its offset on.
page-rest :
    (q : Query) (hs : List Hit)
    → (page_of q hs).hits ++ (page_of (from q (q.offset + (page_of q hs).examined)) hs).hits
      ≡ (page_of (from q q.offset) hs).hits
unfolding drop page_of
page-rest q hs =
    ap (λ r. (page_of q hs).hits ++ r) (page_hits (from q (q.offset + (page_of q hs).examined)) hs)
    ∙ joined (page_of q hs).hits (page_hits q hs)
    ∙ sym (page_hits (from q q.offset) hs)
  where
    joined :
        (first : List Hit)
        → first ≡ cut q.limit (drop q.offset hs)
        → first ++ drop (q.offset + length first) hs ≡ drop q.offset hs
    joined first e =
        subst (λ y. y ++ drop (q.offset + length y) hs ≡ drop q.offset hs) (sym e)
          (ap (λ r. cut q.limit (drop q.offset hs) ++ r)
              (drop_add q.offset (length (cut q.limit (drop q.offset hs))) hs)
            ∙ cut-rest q.limit (drop q.offset hs))

-- Whatever the size of a page, it and what is left after it are what was left before it: a caller who
-- goes on past the hits that a page examined, while the index does not change, sees every hit once
-- and in the same order.
pub pages_reassemble :
    (lower : Char → Char) (q : Query) (docs : Documents)
    → (page rest whole : Page) × (search lower false q docs ≡ some page)
      × (search lower false (from q (q.offset + page.examined)) docs ≡ some rest)
      × (search lower false (from q q.offset) docs ≡ some whole)
      × (page.hits ++ rest.hits ≡ whole.hits)
unfolding search
pages_reassemble lower q docs = elim (Bool-cases (is_nil (tokenize lower q.text))) [
  | inl termless ↦ (
    no_results,
    no_results,
    no_results,
    rw (termless, search) refl,
    rw (termless, search) refl,
    rw (termless, search) refl,
    refl,
  )
  | inr terms ↦
      let hs = sort_hits (matching lower q (tokenize lower q.text) docs) in
      let page = page_of q hs in
      (
        page,
        page_of (from q (q.offset + page.examined)) hs,
        page_of (from q q.offset) hs,
        rw (terms, search) refl,
        search_page lower q (q.offset + page.examined) docs terms,
        search_page lower q q.offset docs terms,
        page-rest q hs,
      )
]
