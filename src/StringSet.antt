-- ===== src/StringSet.antt =====
-- pkg/upgrade/util.go: `StringSet`, a set of strings behind a mutex. A method holds the mutex from
-- its first line to its last, so each is one step on the map.
use k8s_operator_libs.Prelude.{
  String, ◌≡◌, refl, Bool, true, false, not, ◌&&◌, ◌||◌, [], arith, ◌==◌,
}
use k8s_operator_libs.StringMap
use k8s_operator_libs.StringMap.{StringMap, lookup-insert, lookup-delete}

pub record StringSet : Type 0 where
  pub m : StringMap Bool

-- `NewStringSet`
unfoldable pub new_string_set : StringSet
new_string_set = record { m = [] }

unfoldable pub add : String → StringSet → StringSet
add item s = record s { m = StringMap.insert item true s.m }

unfoldable pub remove : String → StringSet → StringSet
remove item s = record s { m = StringMap.delete item s.m }

unfoldable pub has : String → StringSet → Bool
has item s = StringMap.has item s.m

unfoldable pub clear : StringSet → StringSet
clear s = record s { m = [] }

-- `StringSet` is a set: an empty set has nothing; `Add` adds its item and no other, `Remove` takes
-- away its item and no other, and `Clear` takes away all.
pub StringSet-set_laws :
    (item other : String) (s : StringSet)
    → (has other new_string_set ≡ false)
      × (has other (add item s) ≡ (item == other || has other s))
      × (has other (remove item s) ≡ (not (item == other) && has other s))
      × (has other (clear s) ≡ false)
unfolding has add remove clear new_string_set StringMap.has StringMap.lookup
StringSet-set_laws item other s = (
  refl,
  ground (arith, lookup-insert item other true s.m),
  ground (arith, lookup-delete item other s.m),
  refl,
)
