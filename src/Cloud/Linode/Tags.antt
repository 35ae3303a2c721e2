-- ===== src/Cloud/Linode/Tags.antt =====
-- Which instances `ListManagedNodes` and `containsAllTags` of orchestrator/linode.go let through.
use mathlib.Core.List.{Mem, mem-cons, mem-cons_self, mem-cons_of_mem, not-mem-nil}
use mathlib.Core.Bool.{Bool-set}
use mathlib.Core.Logic.Or
use serverless_gpu_linode.Common.{
  ◌≡◌, ◌↔◌, refl, sym, inl, inr, String, true, List, [], ◌∷◌, arith, All, Bool-cases, str_eq,
  str_eq_iff,
}
use serverless_gpu_linode.Cloud.Linode.{has_tag, contains_all_tags}

has_tag-Mem : (tags : List String) (t : String) → has_tag tags t ≡ true → Mem t tags
unfolding has_tag
has_tag-Mem [] t h = absurd (cc)
has_tag-Mem (tag ∷ rest) t h = elim (Bool-cases (str_eq tag t)) [
  | inl hit ↦ rw ((str_eq_iff tag t).0 hit) mem-cons_self
  | inr miss ↦ mem-cons_of_mem tag (has_tag-Mem rest t (ground arith))
]

Mem-has_tag : (tags : List String) (t : String) → Mem t tags → has_tag tags t ≡ true
unfolding has_tag
Mem-has_tag [] t m = absurd (not-mem-nil m)
Mem-has_tag (tag ∷ rest) t m =
    Or.elim (Bool-set _ _) (mem-cons.0 m) (λ e. ground (arith, (str_eq_iff tag t).1 (sym e)))
      (λ i. ground (arith, Mem-has_tag rest t i))

-- `containsAllTags` holds exactly where every required tag is among the instance's.
pub contains_all_tags_iff :
    (tags required : List String)
    → (contains_all_tags tags required ≡ true) ↔ All (λ t. Mem t tags) required
unfolding contains_all_tags
contains_all_tags_iff tags [] = (λ _. tt, λ _. refl)
contains_all_tags_iff tags (t ∷ rest) = (
  λ h. (has_tag-Mem tags t (ground arith), (contains_all_tags_iff tags rest).0 (ground arith)),
  λ a. ground (arith, Mem-has_tag tags t a.0, (contains_all_tags_iff tags rest).1 a.1),
)
