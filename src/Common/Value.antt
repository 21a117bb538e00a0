-- ===== src/Common/Value.antt =====
-- The values of JavaScript that the pages handle: what `JSON.parse` gives, and `undefined`. An object
-- is its fields in order; a missing one reads as `undefined`.
pub mod Laws
use Prim.Native.String
use Prim.Native.String.{String}
use mathlib.Core.Bool.{Bool, true, false, not}
use mathlib.Core.Option.{Option, none, some}
use mathlib.Core.List
use mathlib.Core.List.{List, [], ◌∷◌}
use text.Mathlib.Text.{◌==◌ as str_eq}
use identity_vault.Common.Tests.{if◌then◌else◌}
use identity_vault.Common.Text.{◌<>◌}
use identity_vault.Common.Number
use identity_vault.Common.Number.{Number, show_number, parse_int, nan}

mutual
  pub data Value : Type 0 where
    undefined : Value
    null : Value
    flag : Bool → Value
    number : Number → Value
    str : String → Value
    object : Fields → Value
    array : Items → Value

  pub data Fields : Type 0 where
    end : Fields
    field : String → Value → Fields → Fields

  pub data Items : Type 0 where
    nil : Items
    cons : Value → Items → Items

-- `!!v`
abbrev pub truthy : Value → Bool
truthy undefined = false
truthy null = false
truthy (flag b) = b
truthy (number n) = Number.is_truthy n
truthy (str s) = if str_eq s "" then false else true
truthy (object fs) = true
truthy (array xs) = true

-- `a || b`
abbrev pub or_else : Value → Value → Value
or_else a b = if truthy a then a else b

-- `a === b` of values that are no objects; the pages compare no objects.
unfoldable pub same_value : Value → Value → Bool
same_value undefined undefined = true
same_value null null = true
same_value (flag true) (flag b) = b
same_value (flag false) (flag b) = not b
same_value (number a) (number b) = Number.same a b
same_value (str s) (str t) = str_eq s t
same_value _ _ = false

-- `o[k]` of an object.
unfoldable pub get : String → Fields → Value
get k end = undefined
get k (field j v fs) = let rest = get k fs in if str_eq j k then v else rest

-- `o[k] = v`
unfoldable pub put : String → Value → Fields → Fields
put k v end = field k v end
put k v (field j w fs) =
    let rest = put k v fs in if str_eq j k then field j v fs else field j w rest

-- `v.k` where `v` is an object; reading from `undefined` or `null` throws, from another value it
-- gives `undefined` for every name that the pages read.
unfoldable pub member : String → Value → Option Value
unfolding get
member k undefined = none
member k null = none
member k (object fs) = some (get k fs)
member k v = some undefined

-- `v.k` of a value that is known to be no `undefined` or `null`.
unfoldable pub prop : String → Value → Value
unfolding get
prop k (object fs) = get k fs
prop k v = undefined

abbrev pub elements : Items → List Value
elements nil = []
elements (cons x xs) = x ∷ elements xs

abbrev pub items : List Value → Items
items [] = nil
items (x ∷ xs) = cons x (items xs)

-- The elements of an array; the array methods throw on what is none.
abbrev pub as_array : Value → Option (List Value)
as_array (array xs) = some (elements xs)
as_array _ = none

abbrev pub unless_missing : Value → String → String
unless_missing undefined s = ""
unless_missing null s = ""
unless_missing v s = s

-- A value put into a text. An array prints its elements, with nothing for the missing ones.
unfoldable mutual
  pub to_text : Value → String
  to_text undefined = "undefined"
  to_text null = "null"
  to_text (flag true) = "true"
  to_text (flag false) = "false"
  to_text (number n) = show_number n
  to_text (str s) = s
  to_text (object fs) = "[object Object]"
  to_text (array xs) = items_text xs

  pub items_text : Items → String
  items_text nil = ""
  items_text (cons x nil) = unless_missing x (to_text x)
  items_text (cons x (cons y ys)) = unless_missing x (to_text x) <> "," <> items_text (cons y ys)

-- `parseInt(v, 10)`
unfoldable pub parse_value : Value → Number
unfolding to_text
parse_value v = parse_int (to_text v)

-- The two shapes of an optional text.
abbrev pub nullable : Option String → Value
nullable none = null
nullable (some s) = str s

-- A short way to write an object.
abbrev pub fields : List (String × Value) → Fields
fields [] = end
fields ((k, v) ∷ kvs) = field k v (fields kvs)
