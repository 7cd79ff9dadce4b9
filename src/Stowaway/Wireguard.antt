-- ===== src/Stowaway/Wireguard.antt =====
-- The connection details of a peer (`_get_wireguard_connection_details` and `_read_wireguard_config`
-- of operator/gefyra/connection/stowaway/__init__.py). A line that cannot be read is logged only.
pub mod Fields
pub mod Lines
use gefyra.Prelude.{
  Bool, true, false, ℕ, List, [], ◌∷◌, ◌++◌, Option, none, some, Text, codes, text_eq, strip,
  contains_text, split_on, split_once, Cut, whole, parts, if◌then◌else◌,
}
use gefyra.Prelude.Dict.{Dict, insert}
use gefyra.Result.{Result, ok, err, or_raise, runtime_error, ◌>>=◌}

-- `_prefix` and `data` of the loop
pub record Reading : Type 0 where
  pub prefix : Text
  pub data_ : Dict Text

-- `f"{_prefix}.{key.strip()}"`
abbrev pub full_key : Text → Text → Text
full_key prefix k = prefix ++ (b'.' ∷ strip k)

-- `key, value = line.split("=", 1)`, whose ValueError is logged
abbrev pub assign : Reading → Cut → Reading
assign r (whole line) = r
assign r (parts k v) = record r { data_ = insert (full_key r.prefix k) (strip v) r.data_ }

-- What the loop does with a line.
unfoldable pub read_line : Text → Reading → Reading
read_line line r =
    if text_eq (strip line) []
    then r
    else if contains_text (codes "[Interface]") line
    then record r { prefix = codes "Interface" }
    else if contains_text (codes "[Peer]") line
    then record r { prefix = codes "Peer" }
    else assign r (split_once b'=' line)

unfoldable pub read_lines : List Text → Reading → Reading
read_lines [] r = r
read_lines (line ∷ lines) r = read_lines lines (read_line line r)

-- `_read_wireguard_config`
unfoldable pub read_wireguard_config : Text → Dict Text
unfolding read_lines read_line
read_wireguard_config raw =
    (read_lines (split_on b'\n' raw) (record { prefix = codes "none"; data_ = [] })).data_

-- `_get_wireguard_connection_details`, from the pod as it is looked up, the texts of the peer's file
-- and of its public key
unfoldable pub get_wireguard_connection_details :
    Result (Option Text) → (Text → Result Text) → (Text → Result Text) → Result (Dict Text)
unfolding read_wireguard_config
get_wireguard_connection_details pod conf pubkey = do
  found ← pod
  name ← or_raise runtime_error found
  raw ← conf name
  key ← pubkey name
  ok (insert (codes "Interface.PublicKey") (strip key) (read_wireguard_config raw))
