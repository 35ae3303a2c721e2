-- ===== src/Common/Json.antt =====
-- JSON documents, as `encoding/json` and a reader of them see them: values, and the members of an
-- object in order.
use Prim.Native.String.{String}
use mathlib.Core.Bool.{Bool}
use mathlib.Core.List.{List, [], ◌∷◌}
use mathlib.Core.Option.{Option, none, some}
use serverless_gpu_linode.Common.Tests.{str_eq, if◌then◌else◌}

mutual
  pub data Json : Type 0 where
    text : String → Json
    truth : Bool → Json
    array : Items → Json
    object : Members → Json

  pub data Items : Type 0 where
    no_items : Items
    item : Json → Items → Items

  pub data Members : Type 0 where
    end : Members
    member : String → Json → Members → Members

-- An object, and an array, of listed parts.
abbrev listed : List (String × Json) → Members
listed [] = end
listed ((n, v) ∷ rest) = member n v (listed rest)

abbrev pub object_of : List (String × Json) → Json
object_of ms = object (listed ms)

abbrev items_of : List Json → Items
items_of [] = no_items
items_of (j ∷ rest) = item j (items_of rest)

abbrev pub array_of : List Json → Json
array_of js = array (items_of js)

-- The members of an object, and the first one under a name.
abbrev pub members : Json → Members
members (object ms) = ms
members _ = end

unfoldable pub field : String → Members → Option Json
field name end = none
field name (member n v rest) =
    let later = field name rest in if str_eq n name then some v else later

-- What stands under a name, or an empty object.
abbrev pub under : String → Json → Json
under name j = elim (field name (members j)) [ none ↦ object end | some v ↦ v ]
