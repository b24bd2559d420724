-- ===== src/Tools/Command/RegisterTee/FreshStart.antt =====
-- What register-tee sends, with a state file and without.
use Prim.Native.String.{String}
use praesidio.Prelude.{Bytes, List, ◌≡◌, if◌then◌else◌}
use praesidio.Validate.Host.{ok}
use praesidio.Tools.Chain.Calls.{Tx, Session}
use praesidio.Tools.Chain.Follows.{Follows}
use praesidio.Tools.Proxy.{SignedTeeInfo, tee_proxy_id}
use praesidio.Tools.Support.{Support}
use praesidio.Tools.Registration.Plan.{Step, plan, Serves}
use praesidio.Tools.Registration.Plan.Run.{saved_letters}
use praesidio.Tools.Registration.Plan.Stages.{IsReliable}
use praesidio.Tools.Command.RegisterTee.{RegisterFlags, Tools, bindings_of, request_of}

-- The transactions that do a step for the machine that the proxy identifies.
abbrev pub ServesProxy : Tools → RegisterFlags → Support → Step → Tx → Type 0
ServesProxy t flags sup k tx =
    (info : SignedTeeInfo) × (ids : Bytes × Bytes) × (ftdc : Bytes × Bytes) × (tee_proxy_id
        t.bindings.services info
      ≡ ok ids)
    × Serves (bindings_of t sup) (request_of flags info ftdc) ids k tx

-- The letters that count at the start of a run.
abbrev pub start_letters : Tools → RegisterFlags → Session → String
start_letters t flags s = if flags.resume then saved_letters t.state_file s else ""

module _ (t : Tools) (flags : RegisterFlags) (sup : Support)
    (reliable : IsReliable t.state_file) where
  abbrev R : Step → Tx → Type 0
  R = ServesProxy t flags sup

  abbrev planned : Session → List Step
  planned s = plan flags.command (saved_letters t.state_file s)
