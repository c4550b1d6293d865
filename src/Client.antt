-- ===== src/Client.antt =====
-- sprintclient/control_client.go: the commands of a control client. What its connection calls is
-- the control service of a node, a function on the state `W` of all that is outside of the process.
pub mod Console
use sprintframework.Common.{
  List, [], ◌∷◌, leb, nat_eq, bytes_eq, if◌then◌else◌, ◌==◌, Bool, true, false, Option, none, some,
  ◌++◌, Bytes, codes, Result, ok, err,
}
use sprintframework.Common.Dict
use sprintframework.Common.Dict.{Dict}
use sprintframework.Server.Control.{Command}

-- The code of an error of gRPC: `status.Code` gives Unknown for an error of another kind.
pub data Code : Type 0 where
  unavailable : Code
  unknown : Code

pub record Failure : Type 0 where
  pub code : Code
  pub text : Bytes

-- An error that `errors.Errorf` makes.
abbrev pub plain : Bytes → Failure
plain text = record { code = unknown; text = text }

-- The handlers of the control service.
pub data Method : Type 0 where
  node config certificate job storage : Method

-- `tls` is whether TLS verifies nothing, if there is a TLS configuration.
pub record Connection (W : Type 0) : Type 1 where
  pub tls : Option Bool
  pub target : Bytes
  pub Error : Type 0
  pub print : Error → Bytes
  pub call : Method → Command → W → Result Error Bytes × W
  pub stats : W → Result Error (Dict Bytes Bytes)

abbrev protocol : Option Bool → Bytes
protocol none = codes "plain"
protocol (some true) = codes "tls insecure"
protocol (some false) = codes "tls"

-- The order of `sort.Strings`.
unfoldable pub leb_bytes : Bytes → Bytes → Bool
leb_bytes [] t = true
leb_bytes (a ∷ s) [] = false
leb_bytes (a ∷ s) (b ∷ t) = let rest = leb_bytes s t in if a == b then rest else leb a b

place : Bytes → List Bytes → List Bytes
place k [] = k ∷ []
place k (j ∷ ks) = let rest = place k ks in if leb_bytes k j then k ∷ j ∷ ks else j ∷ rest

unfoldable pub sorted : List Bytes → List Bytes
unfolding place
sorted [] = []
sorted (k ∷ ks) = place k (sorted ks)

-- An index expression on a map of texts.
abbrev text_at : Dict Bytes Bytes → Bytes → Bytes
text_at m k = elim (Dict.lookup k m) [ none ↦ [] | some v ↦ v ]

unfoldable pub stat_lines : Dict Bytes Bytes → List Bytes → Bytes
stat_lines m [] = []
stat_lines m (k ∷ ks) = k ++ (codes ": " ++ (text_at m k ++ (codes "\n" ++ stat_lines m ks)))

module _ {W : Type 0} (c : Connection W) where
  -- `wrapError`
  unfoldable pub wrap_error : c.Error → Failure
  wrap_error e = record {
    code = unavailable;
    text =
        codes "grpc "
        ++ (protocol c.tls ++ (codes " invocation '" ++ (c.target ++ (codes "', " ++ c.print e))));
  }

  unfoldable pub wrapped : Result c.Error Bytes × W → Result Failure Bytes × W
  wrapped (ok content, w) = (ok content, w)
  wrapped (err e, w) = (err (wrap_error e), w)

  -- What `ConfigCommand`, `CertificateCommand`, `JobCommand` and `StorageCommand` do with the
  -- handler of their name.
  unfoldable pub command : Method → Bytes → List Bytes → W → Result Failure Bytes × W
  unfolding wrapped
  command method cmd args w = wrapped (c.call method (record { command = cmd; args = args }) w)

  -- `Shutdown`
  unfoldable pub shutdown : Bool → W → Result Failure Bytes × W
  unfolding wrapped
  shutdown restart w = wrapped (
      c.call node
        (record { command = if restart then codes "restart" else codes "shutdown"; args = [] }) w)

  -- `Status`
  unfoldable pub status : W → Result Failure Bytes
  status w = elim (c.stats w) [
    | err e ↦ err (wrap_error e)
    | ok stats ↦ ok (stat_lines stats (sorted (Dict.keys stats)))
  ]
