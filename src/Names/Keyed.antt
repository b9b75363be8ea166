-- ===== src/Names/Keyed.antt =====
-- The keyed encoding is unambiguous: the name's byte length comes first, closed by a colon.
use steda.Prelude.{◌≤◌, ◌-◌, ◌≡◌, sym, ap, ◌∙◌, false, arith, ◌++◌}
use steda.Text.{Str, byte_len, decimal}
use steda.Text.Blank.{is_blank, is_empty-trim}
use steda.Text.Decimal.{decimal-IsDigit, decimal-injective, digits_cancel}
use steda.Text.Equality.{byte_len-append, append_cancel, append_cancel_left}
use steda.Error.{ok}
use steda.Names.{keyed_identity, keyed_workflow_storage_name}

keyed_identity-injective :
    (n n' k k' : Str) → keyed_identity n k ≡ keyed_identity n' k' → (n ≡ n') × (k ≡ k')
keyed_identity-injective n n' k k' e =
    append_cancel n n' k k' split.1 (decimal-injective (byte_len n) (byte_len n') split.0)
  where
    split : (decimal (byte_len n) ≡ decimal (byte_len n')) × (n ++ k ≡ n' ++ k')
    split =
        digits_cancel (decimal (byte_len n)) (decimal (byte_len n')) (n ++ k) (n' ++ k')
          (decimal-IsDigit (byte_len n)) (decimal-IsDigit (byte_len n')) e

pub keyed_workflow_storage_name-ok :
    (prefix name key : Str) {s : Str}
    → keyed_workflow_storage_name prefix name key ≡ ok s
    → (s ≡ prefix ++ keyed_identity name key)
      × (is_blank name ≡ false)
      × (is_blank key ≡ false)
      × (byte_len (keyed_identity name key) ≤ 1024 - byte_len prefix)
unfolding keyed_workflow_storage_name
keyed_workflow_storage_name-ok prefix name key h =
    ground (arith, is_empty-trim name, is_empty-trim key)

-- For a prefix within the limit, a keyed storage name has at most 1024 bytes, and two keyed steps
-- share one only if both their names and their keys are the same.
pub keyed_workflow_storage_name_faithful :
    (prefix name name' key key' : Str) {s : Str}
    → byte_len prefix ≤ 1024
    → keyed_workflow_storage_name prefix name key ≡ ok s
    → keyed_workflow_storage_name prefix name' key' ≡ ok s
    → (byte_len s ≤ 1024) × (name ≡ name') × (key ≡ key')
keyed_workflow_storage_name_faithful prefix name name' key key' fits h h' =
    let a = keyed_workflow_storage_name-ok prefix name key h in
    let b = keyed_workflow_storage_name-ok prefix name' key' h' in
    let same =
      keyed_identity-injective name name' key key'
        (append_cancel_left prefix _ _ (sym a.0 ∙ b.0)) in
    (
      omega (arith, ap byte_len a.0, byte_len-append prefix (keyed_identity name key)),
      same.0,
      same.1,
    )
