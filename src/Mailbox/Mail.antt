-- ===== src/Mailbox/Mail.antt =====
-- src/api/mailbox.rs: the plain endpoints of the mailbox.
pub mod Routes
pub mod Relayed
use taproot_assets_rest_gate.Prelude.{ℕ, Text, ascii, Option, List}
use taproot_assets_rest_gate.Json.{Value, string, object, field, end}
use taproot_assets_rest_gate.Api.Upstream.{Call}
use taproot_assets_rest_gate.Api.Endpoint.{
  Gateway, Handler, endpoint, get_request, post_request, ask, answered, nullable, array_of, itself,
  number_of,
}

pub record ReceiveRequest : Type 0 where
  pub init : Value
  pub auth_sig : Value

abbrev pub receive_request_value : ReceiveRequest → Value
receive_request_value r =
    object (field (ascii "init") r.init (field (ascii "auth_sig") r.auth_sig end))

pub record SendRequest : Type 0 where
  pub receiver_id : Text
  pub encrypted_payload : Text
  pub tx_proof : Option Value
  pub expiry_block_height : Option ℕ

abbrev pub send_request_value : SendRequest → Value
send_request_value r = object (
    field (ascii "receiver_id") (string r.receiver_id) (
      field (ascii "encrypted_payload") (string r.encrypted_payload) (
        field (ascii "tx_proof") (nullable itself r.tx_proof)
          (field (ascii "expiry_block_height") (nullable number_of r.expiry_block_height) end))))

pub record RemoveMessageRequest : Type 0 where
  pub receiver_id : Text
  pub message_ids : List ℕ
  pub signature : Text

abbrev pub remove_message_request_value : RemoveMessageRequest → Value
remove_message_request_value r = object (
    field (ascii "receiver_id") (string r.receiver_id) (
      field (ascii "message_ids") (array_of number_of r.message_ids)
        (field (ascii "signature") (string r.signature) end)))

unfoldable pub get_mailbox_info : Gateway → Call Value
get_mailbox_info g = ask g (get_request g (endpoint g (ascii "mailbox/info")))

unfoldable pub receive_mail : Gateway → ReceiveRequest → Call Value
receive_mail g request =
    ask g (post_request g (endpoint g (ascii "mailbox/receive")) (receive_request_value request))

unfoldable pub send_mail : Gateway → SendRequest → Call Value
send_mail g request =
    ask g (post_request g (endpoint g (ascii "mailbox/send")) (send_request_value request))

unfoldable pub remove_message : Gateway → RemoveMessageRequest → Call Value
remove_message g request =
    ask g
      (post_request g (endpoint g (ascii "mailbox/remove")) (remove_message_request_value request))

unfoldable pub info : Handler
info g = answered (get_mailbox_info g) g

unfoldable pub receive : ReceiveRequest → Handler
receive request g = answered (receive_mail g request) g

unfoldable pub send : SendRequest → Handler
send request g = answered (send_mail g request) g

unfoldable pub remove : RemoveMessageRequest → Handler
remove request g = answered (remove_message g request) g
