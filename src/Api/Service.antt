-- ===== src/Api/Service.antt =====
-- src/api/routes.rs: the routes of the files that relay requests to tapd, together.
use taproot_assets_rest_gate.Api.Upstream.{Client}
use taproot_assets_rest_gate.Api.Endpoint.{Gateway, Handler}
use taproot_assets_rest_gate.Api.Confined.{Place, Confines}
use taproot_assets_rest_gate.Api.Universe.Routes.{
  UniverseRoute, universe_service, universe_place, UniverseAcceptable,
}
use taproot_assets_rest_gate.Api.Universe.Relayed.{universe_service-Confines}
use taproot_assets_rest_gate.Api.Assets.Routes.{
  AssetsRoute, assets_service, assets_place, AssetsAcceptable,
}
use taproot_assets_rest_gate.Api.Assets.Relayed.{assets_service-Confines}
use taproot_assets_rest_gate.Api.Wallet.Routes.{
  WalletRoute, wallet_service, wallet_place, WalletAcceptable,
}
use taproot_assets_rest_gate.Api.Wallet.Relayed.{wallet_service-Confines}
use taproot_assets_rest_gate.Api.Channels.Routes.{
  ChannelsRoute, channels_service, channels_place, ChannelsAcceptable,
}
use taproot_assets_rest_gate.Api.Channels.Relayed.{channels_service-Confines}
use taproot_assets_rest_gate.Api.Proofs.Routes.{
  ProofsRoute, proofs_service, proofs_place, ProofsAcceptable,
}
use taproot_assets_rest_gate.Api.Proofs.Relayed.{proofs_service-Confines}
use taproot_assets_rest_gate.Api.Rfq.Routes.{RfqRoute, rfq_service, rfq_place, RfqAcceptable}
use taproot_assets_rest_gate.Api.Rfq.Relayed.{rfq_service-Confines}
use taproot_assets_rest_gate.Api.Send.Routes.{SendRoute, send_service, send_place, SendAcceptable}
use taproot_assets_rest_gate.Api.Send.Relayed.{send_service-Confines}
use taproot_assets_rest_gate.Api.Info.Routes.{InfoRoute, info_service, info_place, InfoAcceptable}
use taproot_assets_rest_gate.Api.Info.Relayed.{info_service-Confines}
use taproot_assets_rest_gate.Mailbox.Mail.Routes.{MailRoute, mail_service, mail_place}
use taproot_assets_rest_gate.Mailbox.Mail.Relayed.{mail_service-Confines}

pub data Route : Type 0 where
  universe : UniverseRoute → Route
  assets : AssetsRoute → Route
  wallet : WalletRoute → Route
  channels : ChannelsRoute → Route
  proofs : ProofsRoute → Route
  rfq : RfqRoute → Route
  send : SendRoute → Route
  info : InfoRoute → Route
  mail : MailRoute → Route

unfoldable pub service : Route → Handler
service (universe r) = universe_service r
service (assets r) = assets_service r
service (wallet r) = wallet_service r
service (channels r) = channels_service r
service (proofs r) = proofs_service r
service (rfq r) = rfq_service r
service (send r) = send_service r
service (info r) = info_service r
service (mail r) = mail_service r

abbrev pub place : Route → Place
place (universe r) = universe_place r
place (assets r) = assets_place r
place (wallet r) = wallet_place r
place (channels r) = channels_place r
place (proofs r) = proofs_place r
place (rfq r) = rfq_place r
place (send r) = send_place r
place (info r) = info_place r
place (mail r) = mail_place r

abbrev pub Acceptable : Route → Type 0
Acceptable (universe r) = UniverseAcceptable r
Acceptable (assets r) = AssetsAcceptable r
Acceptable (wallet r) = WalletAcceptable r
Acceptable (channels r) = ChannelsAcceptable r
Acceptable (proofs r) = ProofsAcceptable r
Acceptable (rfq r) = RfqAcceptable r
Acceptable (send r) = SendAcceptable r
Acceptable (info r) = InfoAcceptable r
Acceptable (mail r) = Unit

-- Whatever its parameters, its body and its query are, a request on any of these routes makes one
-- request to tapd: by the method of the route, at the same path below `/v1/taproot-assets` and with
-- the query that the route passes on, with the macaroon of the gateway, and with letters, digits,
-- `/`, `-` and `+` alone in its path. Or its parameters are not acceptable, nothing is sent and the
-- answer is 400.
pub service-Confines :
    (r : Route) (g : Gateway) (client : Client)
    → Confines g (place r) (Acceptable r) (service r g client)
unfolding service
service-Confines (universe r) g client = universe_service-Confines r g client
service-Confines (assets r) g client = assets_service-Confines r g client
service-Confines (wallet r) g client = wallet_service-Confines r g client
service-Confines (channels r) g client = channels_service-Confines r g client
service-Confines (proofs r) g client = proofs_service-Confines r g client
service-Confines (rfq r) g client = rfq_service-Confines r g client
service-Confines (send r) g client = send_service-Confines r g client
service-Confines (info r) g client = info_service-Confines r g client
service-Confines (mail r) g client = mail_service-Confines r g client
