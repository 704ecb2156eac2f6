-- ===== src/Base/Json.antt =====
-- JSON values (`unknown` in the source) over a type of numbers. JavaScript's doubles are not
-- modelled: the components take the type and the operations that they use.
use Prim.Native.Nat.{ℕ, suc}
use mathlib.Core.Bool.{Bool}
use mathlib.Core.Option.{Option, none, some}
use package.sentriqora.Base.Tests.{if◌then◌else◌}
use package.sentriqora.Base.Strings.{Text, text_eq}

mutual
  pub data Json (N : Type 0) : Type 0 where
    null : Json N
    bool : Bool → Json N
    num : N → Json N
    str : Text → Json N
    arr : Items N → Json N
    obj : Fields N → Json N

  pub data Items (N : Type 0) : Type 0 where
    nil : Items N
    cons : Json N → Items N → Items N

  -- the own properties of an object, in the order of `Object.entries`
  pub data Fields (N : Type 0) : Type 0 where
    end : Fields N
    field : Text → Json N → Fields N → Fields N

module _ {N : Type 0} where
  -- a property, or `undefined`
  unfoldable pub get : Text → Fields N → Option (Json N)
  get key end = none
  get key (field k v rest) = if text_eq k key then some v else get key rest

  abbrev pub count : Items N → ℕ
  count nil = 0
  count (cons v vs) = suc (count vs)
