-- ===== src/PriorityMap/Wrapped.antt =====
-- `dissoc` of src/basilisp/lang/priority_map.py for keys that are stored under a wrapper.
use baisilisp.Base.{◌≡◌, none, some, All, ite}
use baisilisp.Base.Dict.{Dict}
use baisilisp.PriorityMap.{HostMap}

-- What is documented of the maps.
pub record HostMapLaws {K V : Type 0} (dec : Discrete K) (m : HostMap K V) : Type 1 where
  pub items-found : (a : m.Map) → All (λ e. m.get a e.0 ≡ some e.1) (m.items a)
  pub found-of_items :
      (Q : K → Type 0) (d : Dict K V)
      → All (λ e. Q e.0) d
      → (j : K) (v : V) → m.get (m.of_items d) j ≡ some v
      → Q j
  pub get-of_items : (a : m.Map) (j : K) → m.get (m.of_items (m.items a)) j ≡ m.get a j
  pub get-delete : (a : m.Map) (k j : K) → m.get (m.delete a k) j ≡ ite (dec k j) none (m.get a j)
