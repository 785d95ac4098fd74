-- ===== src/Mailbox/Mail/Routes.antt =====
-- The plain routes of src/api/mailbox.rs with their inputs.
use taproot_assets_rest_gate.Prelude.{ascii, []}
use taproot_assets_rest_gate.Api.Upstream.{method_get, method_post}
use taproot_assets_rest_gate.Api.Endpoint.{Handler}
use taproot_assets_rest_gate.Api.Confined.{Place}
use taproot_assets_rest_gate.Mailbox.Mail.{
  ReceiveRequest, SendRequest, RemoveMessageRequest, info, receive, send, remove,
}

pub data MailRoute : Type 0 where
  to_info : MailRoute
  to_receive : (req : ReceiveRequest) → MailRoute
  to_send : (req : SendRequest) → MailRoute
  to_remove : (req : RemoveMessageRequest) → MailRoute

unfoldable pub mail_service : MailRoute → Handler
mail_service to_info = info
mail_service (to_receive req) = receive req
mail_service (to_send req) = send req
mail_service (to_remove req) = remove req

abbrev pub mail_place : MailRoute → Place
mail_place to_info = record { method = method_get; path = ascii "/mailbox/info"; query = [] }
mail_place (to_receive req) = record {
  method = method_post;
  path = ascii "/mailbox/receive";
  query = [];
}
mail_place (to_send req) = record { method = method_post; path = ascii "/mailbox/send"; query = [] }
mail_place (to_remove req) = record {
  method = method_post;
  path = ascii "/mailbox/remove";
  query = [];
}
