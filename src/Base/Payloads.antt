-- ===== src/Base/Payloads.antt =====
-- The values of JSON, for the payloads of events.
use Prim.Native.Nat.{ℕ}
use Prim.Native.String.{String}
use mathlib.Core.Bool.{Bool}
use mathlib.Core.Option.{Option, none, some}
use mathlib.Core.List.{List, [], ◌∷◌}

mutual
  pub data Json : Type 0 where
    null : Json
    bool : Bool → Json
    num : ℕ → Json
    str : String → Json
    arr : Items → Json
    obj : Fields → Json

  pub data Items : Type 0 where
    nil : Items
    cons : Json → Items → Items

  pub data Fields : Type 0 where
    end : Fields
    field : String → Json → Fields → Fields

abbrev pub opt_str : Option String → Json
opt_str none = null
opt_str (some s) = str s

abbrev pub str_items : List String → Items
str_items [] = nil
str_items (s ∷ l) = cons (str s) (str_items l)

abbrev pub strs : List String → Json
strs l = arr (str_items l)
