-- ===== src/Mailbox/Mail/Relayed.antt =====
-- The requests of the plain routes of src/api/mailbox.rs stay below the prefix of tapd.
use taproot_assets_rest_gate.Prelude.{all, refl}
use taproot_assets_rest_gate.Api.Upstream.{Client, with_query}
use taproot_assets_rest_gate.Api.Endpoint.{Gateway, ask-sent}
use taproot_assets_rest_gate.Api.Confined.{Confines, answered-Confines}
use taproot_assets_rest_gate.Mailbox.Mail.{
  info, receive, send, remove, get_mailbox_info, receive_mail, send_mail, remove_message,
}
use taproot_assets_rest_gate.Mailbox.Mail.Routes.{
  MailRoute, mail_service, mail_place, to_info, to_receive, to_send, to_remove,
}

pub mail_service-Confines :
    (r : MailRoute) (g : Gateway) (client : Client)
    → Confines g (mail_place r) Unit (mail_service r g client)
unfolding mail_service info receive send remove get_mailbox_info receive_mail send_mail
    remove_message with_query all
mail_service-Confines to_info g client =
    answered-Confines g (mail_place to_info) (get_mailbox_info g) _ client (ask-sent g _ client)
      (refl, refl, refl, refl)
mail_service-Confines (to_receive req) g client =
    answered-Confines g (mail_place (to_receive req)) (receive_mail g req) _ client
      (ask-sent g _ client) (refl, refl, refl, refl)
mail_service-Confines (to_send req) g client =
    answered-Confines g (mail_place (to_send req)) (send_mail g req) _ client (ask-sent g _ client)
      (refl, refl, refl, refl)
mail_service-Confines (to_remove req) g client =
    answered-Confines g (mail_place (to_remove req)) (remove_message g req) _ client
      (ask-sent g _ client) (refl, refl, refl, refl)
