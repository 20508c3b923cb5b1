-- ===== src/Service/Handlers.antt =====
-- The other handlers of EnclaveService in enclave/main.py, and their registration with the server.
use agentic_ai_tee.Base.{
  Option, none, some, List, [], ◌∷◌, if◌then◌else◌, is_empty, Text, codes, Value, Items, nil, cons,
  Fields, bool, str, list, dict, end, field,
}
use agentic_ai_tee.Base.Dict.{Dict}
use agentic_ai_tee.Base.Result.{Result, ok, err}
use agentic_ai_tee.Agent.Controller.State.{Controller}
use agentic_ai_tee.Agent.Models.{TaskRequest}
use agentic_ai_tee.Tools.Router.{Format}
use agentic_ai_tee.Vsock.Protocol.{MessageFrame}
use agentic_ai_tee.Vsock.Server.{Handler}
use agentic_ai_tee.Service.State.{Config, State, text_or}
use agentic_ai_tee.Service.Tasks.{Outside, Times, handle_task_request}
use agentic_ai_tee.Service.Reconfigure.{handle_reconfigure}

unfoldable pub handle_echo : MessageFrame → MessageFrame
handle_echo msg = record {
  msg_type = str (codes "echo_response");
  payload = msg.payload;
  request_id = msg.request_id;
}

unfoldable pub text_items : List Text → Items
text_items [] = nil
text_items (t ∷ ts) = cons (str t) (text_items ts)

-- `tools` is the names of the registry.
unfoldable pub handle_status : List Text → Config → MessageFrame → MessageFrame
handle_status tools config msg = record {
  msg_type = str (codes "status_response");
  payload = dict (
      field (codes "status") (str (codes "running")) (
        field (codes "tools") (list (text_items tools)) (
          field (codes "llm_provider") (str config.llm_provider) (
            field (codes "llm_model") (str config.llm_model)
              (field (codes "use_vsock") (bool config.use_vsock) end)))));
  request_id = msg.request_id;
}

-- The public keys of the enclave in hex, and the PCR values of a fresh document for a nonce.
pub record Identity : Type 0 where
  pub verify_key : Text
  pub public_key : Text
  pub fresh_pcrs : Option Text → Fields

abbrev pub nonce_of : Text → Option Text
nonce_of t = if is_empty t then none else some t

unfoldable pub attestation_frame : Identity → Value → Text → MessageFrame
attestation_frame I request_id nonce = record {
  msg_type = str (codes "attestation");
  payload = dict (
      field (codes "pcrs") (dict (I.fresh_pcrs (nonce_of nonce))) (
        field (codes "verify_key") (str I.verify_key)
          (field (codes "public_key") (str I.public_key) end)));
  request_id = request_id;
}

-- A nonce that is no text raises, and so does a payload that is no dict.
unfoldable pub handle_attest : Identity → Text → MessageFrame → Result Text (Option MessageFrame)
handle_attest I unreadable msg = elim msg.payload [
  | dict payload ↦ elim (text_or payload (codes "nonce") []) [
    | none ↦ err unreadable
    | some nonce ↦ ok (some (attestation_frame I msg.request_id nonce))
  ]
  | _ ↦ err unreadable
]

-- `_register_handlers`
module _ (O : Outside) (F : Format) (sha3 : Text → Text) {L W : Type 0} (C : Controller L W)
    (system_prompt : TaskRequest → Text) (times : Times) (lower : Text → Text) (I : Identity)
    (tools : List Text) where
  -- A handler that leaves the stream alone.
  abbrev off_stream :
      (MessageFrame → State L W → Result Text (Option MessageFrame) × State L W)
      → Handler (State L W)
  off_stream handle msg written s = let (reply, s') = handle msg s in (reply, written, s')

  unfoldable pub service_handlers : Dict (Handler (State L W))
  service_handlers =
      (codes "task_request", off_stream (handle_task_request O F sha3 C system_prompt times))
      ∷ (codes "attest", off_stream (λ msg s. (handle_attest I O.unreadable msg, s)))
      ∷ (codes "echo", off_stream (λ msg s. (ok (some (handle_echo msg)), s)))
      ∷ (codes "status", off_stream (λ msg s. (ok (some (handle_status tools s.config msg)), s)))
      ∷ (codes "reconfigure", off_stream (handle_reconfigure lower O.unreadable))
      ∷ []
