-- ===== src/Base/Maps.antt =====
-- `std::unordered_map<std::string, std::string>` as an association list. The order of the list
-- stands for the order in which the map is iterated, which the standard leaves open.
use mathlib.Core.Path.{◌≡◌, refl}
use mathlib.Core.Option.{Option, none, some}
use mathlib.Core.List.{List, [], ◌∷◌}
use native.Mathlib.Omega.{arith}
use high_performance_http_se.Base.Tests.{if◌then◌else◌}
use high_performance_http_se.Base.Text.{Bytes, equal, equal_iff}

abbrev pub Dict : Type 0
Dict = List (Bytes × Bytes)

-- `find`.
unfoldable pub lookup : Bytes → Dict → Option Bytes
lookup k [] = none
lookup k ((j, v) ∷ m) = if equal j k then some v else lookup k m

-- `m[k] = v`.
unfoldable pub insert : Bytes → Bytes → Dict → Dict
insert k v [] = (k, v) ∷ []
insert k v ((j, w) ∷ m) = if equal j k then (j, v) ∷ m else (j, w) ∷ insert k v m

pub lookup-insert :
    (k j v : Bytes) (m : Dict)
    → lookup j (insert k v m) ≡ (if equal k j then some v else lookup j m)
unfolding lookup insert
lookup-insert k j v [] = refl
lookup-insert k j v (entry ∷ m) =
    ground (lookup-insert k j v m, equal_iff entry.0 j, equal_iff entry.0 k, equal_iff k j, arith)
