-- ===== src/Wifi/Names.antt =====
-- The law of PolicyTunnelNames in internal/wifi/automation.go.
use wireguide_plus.Common.{
  ◌≡◌, refl, ◌∙◌, List, [], ◌∷◌, ◌++◌, map, String, Bool, true, false, ◌||◌, is_some, any, str_eq,
  str_eq_iff, arith,
}
use mathlib.Core.Path.{ap₂}
use wireguide_plus.Common.Maps.{lookup}
use wireguide_plus.Common.Order.{
  any-sort, sort, insert_sorted, str_le, str_le-IsTotalOrder, IsSorted, sort-IsSorted,
}
use wireguide_plus.Wifi.Model.{Automation}
use wireguide_plus.Wifi.Normalize.{distinct_from, policy_tunnel_names}
use wireguide_plus.Common.{any-append}

any-insert :
    (f : String → Bool) (x : String) (ys : List String)
    → any f (insert_sorted str_le x ys) ≡ f x || any f ys
unfolding insert_sorted
any-insert f x [] = refl
any-insert f x (y ∷ ys) = ground (arith, any-insert f x ys)

-- Every name that has been seen or is still to come.
any-distinct :
    (n : String) (seen names : List String)
    → any (str_eq n) seen || any (str_eq n) (distinct_from seen names)
      ≡ any (str_eq n) seen || any (str_eq n) names
unfolding distinct_from
any-distinct n seen [] = refl
any-distinct n seen (x ∷ names) =
    ground (arith, any-distinct n seen names, any-distinct n (x ∷ seen) names, str_eq_iff n x)

any-keys {ℓ} :
    {V : Type ℓ} (n : String) (m : List (String × V))
    → any (str_eq n) (map (λ e. e.0) m) ≡ is_some (lookup n m)
unfolding lookup
any-keys n [] = refl
any-keys n ((k, v) ∷ m) = ground (arith, any-keys n m, str_eq_iff n k, str_eq_iff k n)

-- No name stands twice.
abbrev pub AreDistinct : List String → Type 0
AreDistinct [] = Unit
AreDistinct (x ∷ xs) = (any (str_eq x) xs ≡ false) × AreDistinct xs

-- What has been seen is not taken again.
distinct_from_seen :
    (n : String) (seen names : List String)
    → any (str_eq n) seen ≡ true
    → any (str_eq n) (distinct_from seen names) ≡ false
unfolding distinct_from
distinct_from_seen n seen [] h = refl
distinct_from_seen n seen (x ∷ names) h =
    ground (
      arith,
      distinct_from_seen n seen names,
      distinct_from_seen n (x ∷ seen) names,
      str_eq_iff n x,
    )

distinct_from-AreDistinct : (seen names : List String) → AreDistinct (distinct_from seen names)
unfolding distinct_from
distinct_from-AreDistinct seen [] = tt
distinct_from-AreDistinct seen (x ∷ names) = ground (
  arith,
  distinct_from-AreDistinct seen names,
  distinct_from-AreDistinct (x ∷ seen) names,
  distinct_from_seen x (x ∷ seen) names,
  str_eq_iff x x,
)

insert-AreDistinct :
    (x : String) (ys : List String)
    → any (str_eq x) ys ≡ false
    → AreDistinct ys
    → AreDistinct (insert_sorted str_le x ys)
unfolding insert_sorted
insert-AreDistinct x [] h d = (refl, tt)
insert-AreDistinct x (y ∷ ys) h d =
    ground
      (arith, insert-AreDistinct x ys, any-insert (str_eq y) x ys, str_eq_iff x y, str_eq_iff y x)

sort-AreDistinct : (xs : List String) → AreDistinct xs → AreDistinct (sort str_le xs)
unfolding sort
sort-AreDistinct [] d = tt
sort-AreDistinct (x ∷ xs) d =
    insert-AreDistinct x (sort str_le xs) (any-sort str_le (str_eq x) xs ∙ d.0)
      (sort-AreDistinct xs d.1)

-- The tunnels that the engine has a policy for: a name is listed exactly when it has an entry in the
-- rule lists or in the Default States; no name is listed twice, and the list is sorted.
pub policy_tunnel_names_union :
    (a : Automation) (n : String)
    → (any (str_eq n) (policy_tunnel_names a)
        ≡ is_some (lookup n a.per_tunnel) || is_some (lookup n a.defaults))
      × AreDistinct (policy_tunnel_names a)
      × IsSorted str_le (policy_tunnel_names a)
unfolding policy_tunnel_names
policy_tunnel_names_union a n = (
  any-sort str_le (str_eq n) (distinct_from [] names)
      ∙ any-distinct n [] names
      ∙ any-append (str_eq n) (map (λ e. e.0) a.per_tunnel) (map (λ e. e.0) a.defaults)
      ∙ ap₂ (λ b c. b || c) (any-keys n a.per_tunnel) (any-keys n a.defaults),
  sort-AreDistinct (distinct_from [] names) (distinct_from-AreDistinct [] names),
  sort-IsSorted str_le str_le-IsTotalOrder (distinct_from [] names),
)
  where
    names : List String
    names = map (λ e. e.0) a.per_tunnel ++ map (λ e. e.0) a.defaults
