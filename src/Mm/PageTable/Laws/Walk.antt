-- ===== src/Mm/PageTable/Laws/Walk.antt =====
-- The walk, the making of its path, and the write at its end.
use oscomp.Common.{
  ℕ, zero, suc, ◌<◌, ◌==◌, ==_iff, ==_self, ◌&&◌, Bool, if◌then◌else◌, true, Bool-cases, Option,
  none, some, ◌≡◌, refl, sym, ap, ◌∙◌, inl, inr, arith,
}
use mathlib.Core.Option.{none-ne-some}
use oscomp.Mm.PageTable.{
  Entry, px, walk, with_entry, zero_table, linked, enter, make_path, set_entry, pte_valid,
}

abbrev pub valid_entry : Option ℕ → Option ℕ
valid_entry none = none
valid_entry (some pte) = if pte_valid pte then some pte else none

unfoldable pub translate : (k : ℕ) → (ℕ → Entry k) → ℕ → Option ℕ
translate k t va = valid_entry (walk k t va)

unfoldable pub same_walk : ℕ → ℕ → ℕ → Bool
same_walk zero a b = px 0 a == px 0 b
same_walk (suc k) a b = (px (suc k) a == px (suc k) b) && same_walk k a b

-- The path is there and nothing else has changed, or the allocations did not suffice.
abbrev pub Made : (k : ℕ) → (ℕ → Entry k) → ℕ → ℕ → Option ((ℕ → Entry k) × ℕ) → Type 0
Made k t va budget none = budget < k
Made k t va budget (some (t', rest)) =
    ((j : ℕ) → translate k t' j ≡ translate k t j) × ((e : ℕ) × (walk k t' va ≡ some e))

-- What an entry above the bottom translates to.
abbrev below : (k : ℕ) → Entry (suc k) → ℕ → Option ℕ
below k none j = none
below k (some u) j = translate k u j

translate-below :
    (k : ℕ) (t : ℕ → Entry (suc k)) (j : ℕ) → translate (suc k) t j ≡ below k (t (px (suc k) j)) j
unfolding translate walk
translate-below k t j = split (t (px (suc k) j))
  where
    split :
        (s : Entry (suc k))
        → valid_entry (elim s [ none ↦ none | some u ↦ walk k u j ]) ≡ below k s j
    split none = refl
    split (some u) = refl

walk-some :
    (k : ℕ) (t : ℕ → Entry (suc k)) (va e : ℕ) (u : ℕ → Entry k)
    → t (px (suc k) va) ≡ some u
    → walk k u va ≡ some e
    → walk (suc k) t va ≡ some e
unfolding walk
walk-some k t va e u eq w = ap (λ s. elim s [ none ↦ none | some u' ↦ walk k u' va ]) eq ∙ w

linked-Made :
    (k : ℕ) (t : ℕ → Entry (suc k)) (va have budget : ℕ) (u : ℕ → Entry k)
    (r : Option ((ℕ → Entry k) × ℕ))
    → ((j : ℕ) → below k (t (px (suc k) va)) j ≡ translate k u j)
    → (budget < k → have < suc k)
    → Made k u va budget r
    → Made (suc k) t va have (linked t (px (suc k) va) r)
unfolding walk
linked-Made k t va have budget u none same few m = few m
linked-Made k t va have budget u (some (u', rest)) same few (m, (e, w)) = (
  kept,
  (
    e,
    walk-some k (with_entry t (px (suc k) va) (some u')) va e u' (rw (==_self (px (suc k) va)) refl)
        w,
  ),
)
  where
    kept :
        (j : ℕ)
        → translate (suc k) (with_entry t (px (suc k) va) (some u')) j ≡ translate (suc k) t j
    kept j =
        translate-below k (with_entry t (px (suc k) va) (some u')) j
        ∙ elim (Bool-cases (px (suc k) va == px (suc k) j)) [
          | inl here ↦
              rw here (m j ∙ sym (same j) ∙ ap (λ i. below k (t i) j) ((==_iff _ _).0 here))
          | inr there ↦ rw there refl
        ]
        ∙ sym (translate-below k t j)

translate-zero_table : (k j : ℕ) → translate k (zero_table k) j ≡ none
unfolding translate walk
translate-zero_table zero j = refl
translate-zero_table (suc k) j = refl

enter-Made :
    (k : ℕ) (next : (ℕ → Entry k) → ℕ → Option ((ℕ → Entry k) × ℕ)) (t : ℕ → Entry (suc k)) (va : ℕ)
    (s : Entry (suc k)) (budget : ℕ)
    → ((u : ℕ → Entry k) (b : ℕ) → Made k u va b (next u b))
    → t (px (suc k) va) ≡ s
    → Made (suc k) t va budget (enter k next t (px (suc k) va) s budget)
enter-Made k next t va none zero m e = omega arith
enter-Made k next t va none (suc b) m e =
    linked-Made k t va (suc b) b (zero_table k) (next (zero_table k) b)
      (λ j. rw e (sym (translate-zero_table k j))) (λ lt. omega arith) (m (zero_table k) b)
enter-Made k next t va (some u) b m e =
    linked-Made k t va b b u (next u b) (λ j. rw e refl) (λ lt. omega arith) (m u b)

pub make_path-Made :
    (k : ℕ) (t : ℕ → Entry k) (va budget : ℕ) → Made k t va budget (make_path k t va budget)
unfolding make_path walk
make_path-Made zero t va budget = ((λ j. refl), (t (px 0 va), refl))
make_path-Made (suc k) t va budget =
    enter-Made k (λ u rest. make_path k u va rest) t va (t (px (suc k) va)) budget
      (λ u b. make_path-Made k u va b) refl

set_below :
    (k : ℕ) (s : Entry (suc k)) (va e old j : ℕ)
    → ((u : ℕ → Entry k)
        → walk k u va ≡ some old
        → translate k (set_entry k u va e) j
          ≡ (if same_walk k va j then valid_entry (some e) else translate k u j))
    → elim s [ none ↦ none | some u ↦ walk k u va ] ≡ some old
    → below k (elim s [ none ↦ none | some u ↦ some (set_entry k u va e) ]) j
      ≡ (if same_walk k va j then valid_entry (some e) else below k s j)
set_below k none va e old j ih w = absurd (none-ne-some old w)
set_below k (some u) va e old j ih w = ih u w

pub translate-set_entry :
    (k : ℕ) (t : ℕ → Entry k) (va e old j : ℕ)
    → walk k t va ≡ some old
    → translate k (set_entry k t va e) j
      ≡ (if same_walk k va j then valid_entry (some e) else translate k t j)
unfolding set_entry same_walk translate walk
translate-set_entry zero t va e old j w = elim (Bool-cases (px 0 va == px 0 j)) [
  | inl here ↦ rw here refl
  | inr there ↦ rw there refl
]
translate-set_entry (suc k) t va e old j w =
    translate-below k
      (with_entry t (px (suc k) va)
        (elim (t (px (suc k) va)) [ none ↦ none | some u ↦ some (set_entry k u va e) ]))
      j
    ∙ elim (Bool-cases (px (suc k) va == px (suc k) j)) [
      | inl here ↦ rw here (
          set_below k (t (px (suc k) va)) va e old j (λ u w'. translate-set_entry k u va e old j w')
            w
          ∙ ap (λ i. if same_walk k va j then valid_entry (some e) else below k (t i) j)
              ((==_iff _ _).0 here)
          ∙ ap (λ x. if same_walk k va j then valid_entry (some e) else x)
              (sym (translate-below k t j)))
      | inr there ↦ rw there (sym (translate-below k t j))
    ]

both : (a b : ℕ) (x : Bool) → ((a == b) && x) ≡ true → (a ≡ b) × (x ≡ true)
both a b x e = ground arith

-- Addresses that go the same way meet the same entry.
pub walk-same_walk :
    (k : ℕ) (t : ℕ → Entry k) (a b : ℕ) → same_walk k a b ≡ true → walk k t a ≡ walk k t b
unfolding same_walk walk
walk-same_walk zero t a b e = ap (λ i. some (t i)) ((==_iff _ _).0 e)
walk-same_walk (suc k) t a b e =
    let (here, rest) = both (px (suc k) a) (px (suc k) b) (same_walk k a b) e in
    let next : (s : Entry (suc k))
        → elim s [ none ↦ none | some u ↦ walk k u a ]
          ≡ elim s [ none ↦ none | some u ↦ walk k u b ] =
      λ s.
        elim s
          as (λ x.
            elim x [ none ↦ none | some u ↦ walk k u a ]
            ≡ elim x [ none ↦ none | some u ↦ walk k u b ]) [
              | none ↦ refl
              | some u ↦ walk-same_walk k u a b rest
            ] in
    next (t (px (suc k) a)) ∙ ap (λ i. elim (t i) [ none ↦ none | some u ↦ walk k u b ]) here
