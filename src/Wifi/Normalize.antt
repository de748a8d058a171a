-- ===== src/Wifi/Normalize.antt =====
-- internal/wifi/automation.go: (*Automation).Normalize, the migration of "Otherwise" rules into
-- Default States, and the lists of tunnel names.
use wireguide_plus.Common.{
  List, [], ◌∷◌, ◌++◌, map, Option, none, some, String, Bool, false, ◌&&◌, is_none, is_some,
  if◌then◌else◌, any, str_eq,
}
use wireguide_plus.Common.Maps.{lookup, put}
use wireguide_plus.Common.Order.{sort, str_le}
use wireguide_plus.Wifi.Model.{Action, Condition, Rule, Automation, Platform}
use wireguide_plus.Wifi.Conditions.{validate_rule, is_none_match}

-- One condition, and that is none_match.
abbrev pub is_otherwise : List Condition → Bool
is_otherwise (c ∷ []) = is_none_match c.kind
is_otherwise _ = false

-- `def` holds an action only after a cut; every other value becomes "disconnect".
abbrev pub default_of : Option Action → Action
default_of (some Action.connect) = Action.connect
default_of _ = Action.disconnect

abbrev keep_rule : Rule → List Rule × Option Action → List Rule × Option Action
keep_rule r (kept, def) = (r ∷ kept, def)

module _ (p : Platform) where
  -- The rules before the first well-formed "Otherwise" rule, and its action.
  unfoldable pub cut_rules : List Rule → List Rule × Option Action
  cut_rules [] = ([], none)
  cut_rules (r ∷ rules) =
      if is_none (validate_rule p r) && is_otherwise r.when
      then ([], some r.action)
      else keep_rule r (cut_rules rules)

  abbrev pub add_default : String → Option Action → List (String × Action) → List (String × Action)
  add_default name def defaults =
      if is_some (lookup name defaults) then defaults else put name (default_of def) defaults

  -- The loop over the rule lists.
  unfoldable pub normalize_from :
      List (String × List Rule)
      → List (String × Action)
      → List (String × List Rule) × List (String × Action)
  normalize_from [] defaults = ([], defaults)
  normalize_from ((name, []) ∷ rest) defaults =
      let (done, out) = normalize_from rest defaults in ((name, []) ∷ done, out)
  normalize_from ((name, r ∷ rules) ∷ rest) defaults =
      let (kept, def) = cut_rules (r ∷ rules) in
      let (done, out) = normalize_from rest (add_default name def defaults) in
      ((name, kept) ∷ done, out)

  unfoldable pub normalize : Automation → Automation
  unfolding normalize_from cut_rules
  normalize a =
      let (rules, defaults) = normalize_from a.per_tunnel a.defaults in
      record { defaults = defaults; per_tunnel = rules }

-- The names of two ranges over maps, each kept at its first occurrence.
unfoldable pub distinct_from : List String → List String → List String
distinct_from seen [] = []
distinct_from seen (n ∷ names) =
    if any (str_eq n) seen then distinct_from seen names else n ∷ distinct_from (n ∷ seen) names

unfoldable pub policy_tunnel_names : Automation → List String
unfolding distinct_from
policy_tunnel_names a =
    sort str_le (distinct_from [] (map (λ e. e.0) a.per_tunnel ++ map (λ e. e.0) a.defaults))

unfoldable pub tunnel_names : Automation → List String
tunnel_names a = sort str_le (map (λ e. e.0) a.per_tunnel)
