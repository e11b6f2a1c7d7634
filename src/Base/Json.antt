-- ===== src/Base/Json.antt =====
-- The Python values that the program puts into JSON, and what `json.loads` gives back of what
-- `json.dumps(…, default=str)` wrote of them.
use mathlib.Core.Bool.{Bool, true, false, not}
use Prim.Native.Nat.{ℕ}
use Prim.Native.String.{String}
use sentinal_rag.Base.Tests.{◌==◌}
use sentinal_rag.Base.Lists.{is_nil}
use sentinal_rag.Base.Text.{Text}

mutual
  pub data Json : Type 0 where
    null : Json
    text : Text → Json
    int : ℕ → Json
    boolean : Bool → Json
    -- whether it is not 0.0, and its text
    float : Bool → Text → Json
    array : Items → Json
    object : Fields → Json
    -- a value that JSON does not have, with its `str`
    opaque : Text → Json

  pub data Items : Type 0 where
    nil : Items
    cons : Json → Items → Items

  -- A dict with text keys.
  pub data Fields : Type 0 where
    end : Fields
    field : String → Json → Fields → Fields

unfoldable mutual
  pub dumped : Json → Json
  dumped null = null
  dumped (text t) = text t
  dumped (int n) = int n
  dumped (boolean b) = boolean b
  dumped (float b t) = float b t
  dumped (array xs) = array (dumped_items xs)
  dumped (object fs) = object (dumped_fields fs)
  dumped (opaque t) = text t

  pub dumped_items : Items → Items
  dumped_items nil = nil
  dumped_items (cons x xs) = cons (dumped x) (dumped_items xs)

  pub dumped_fields : Fields → Fields
  dumped_fields end = end
  dumped_fields (field k v fs) = field k (dumped v) (dumped_fields fs)

-- Python's truth of a value.
unfoldable pub truth : Json → Bool
truth null = false
truth (text t) = not (is_nil t)
truth (int n) = not (n == 0)
truth (boolean b) = b
truth (float b t) = b
truth (array nil) = false
truth (array (cons x xs)) = true
truth (object end) = false
truth (object (field k v fs)) = true
truth (opaque t) = true
