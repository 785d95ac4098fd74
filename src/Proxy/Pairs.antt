-- ===== src/Proxy/Pairs.antt =====
-- Sessions with their connections: what each change of the two tables keeps.
use taproot_assets_rest_gate.Prelude.{
  ℕ, Text, true, false, none, some, Map, get, insert, remove, modify, get-insert, get-remove,
  get-modify, is_some, text_key, nat_key, ◌==◌, ==_iff, ==_refl, ◌≡◌, arith, Option-cases, inl, inr,
}
use taproot_assets_rest_gate.Connections.{BackendConnection}
use taproot_assets_rest_gate.Proxy.{ProxySession, WebSocketProxyHandler}

-- Every session's connection is tracked, and no two sessions share one.
pub record Pairs (connections : Map ℕ BackendConnection) (sessions : Map Text ProxySession)
    : Type 0 where
  pub tracked :
      (id : Text) (p : ProxySession)
      → get id sessions ≡ some p
      → is_some (get p.backend_conn_id connections) ≡ true
  pub apart :
      (i j : Text) (p q : ProxySession)
      → get i sessions ≡ some p
      → get j sessions ≡ some q
      → p.backend_conn_id ≡ q.backend_conn_id
      → i ≡ j

abbrev pub IsPaired : WebSocketProxyHandler → Type 0
IsPaired h = Pairs h.connection_manager.connections h.active_proxies

module _ (connections : Map ℕ BackendConnection) (sessions : Map Text ProxySession) where
  found_before :
      (k i : Text) (q : ProxySession)
      → get i (remove k sessions) ≡ some q
      → (get i sessions ≡ some q) × ((k == i) ≡ false)
  found_before k i q e = ground (arith, get-remove k i sessions)

  pub Pairs-remove :
      (id : Text) (p : ProxySession)
      → get id sessions ≡ some p
      → Pairs connections sessions
      → Pairs (remove p.backend_conn_id connections) (remove id sessions)
  Pairs-remove id p found v = record {
    tracked = λ i q e.
        let (e', other) = found_before id i q e in
        ground (
          arith,
          get-remove p.backend_conn_id q.backend_conn_id connections,
          v.tracked i q e',
          v.apart i id q p e' found,
          ==_iff id i,
        );
    apart = λ i j q r e f. v.apart i j q r (found_before id i q e).0 (found_before id j r f).0;
  }

  pub Pairs-connection :
      (conn : ℕ) (c : BackendConnection)
      → Pairs connections sessions
      → Pairs (insert conn c connections) sessions
  Pairs-connection conn c v = record {
    tracked =
        λ i q e. ground (arith, get-insert conn q.backend_conn_id c connections, v.tracked i q e);
    apart = v.apart;
  }

  pub Pairs-session :
      (id : Text) (p : ProxySession) (c : BackendConnection)
      → get p.backend_conn_id connections ≡ none
      → Pairs connections sessions
      → Pairs (insert p.backend_conn_id c connections) (insert id p sessions)
  Pairs-session id p c fresh v = record {
    tracked = λ i q e. ground (
      arith,
      get-insert p.backend_conn_id q.backend_conn_id c connections,
      get-insert id i p sessions,
      v.tracked i q,
      ==_refl p.backend_conn_id,
    );
    apart = λ i j q r e f same. ground (
      arith,
      get-insert id i p sessions,
      get-insert id j p sessions,
      v.apart i j q r,
      ==_iff id i,
      ==_iff id j,
      v.tracked i q,
      v.tracked j r,
    );
  }

  modified_before :
      (id i : Text) (epoch : ℕ) (q : ProxySession)
      → get i (modify id (λ p. record p { last_activity_epoch = epoch }) sessions) ≡ some q
      → (p : ProxySession) × (get i sessions ≡ some p) × (p.backend_conn_id ≡ q.backend_conn_id)
  modified_before id i epoch q e =
      let same = get-modify id i (λ p. record p { last_activity_epoch = epoch }) sessions in
      elim (Option-cases (get i sessions)) [
        | inl f ↦ absurd (ground (arith, same))
        | inr (p, f) ↦ (p, f, ground (arith, same))
      ]

  pub Pairs-modify :
      (id : Text) (epoch : ℕ)
      → Pairs connections sessions
      → Pairs connections (modify id (λ p. record p { last_activity_epoch = epoch }) sessions)
  Pairs-modify id epoch v = record {
    tracked = λ i q e.
        let (p, f, same) = modified_before id i epoch q e in ground (arith, v.tracked i p f);
    apart = λ i j q r e f same.
        let (p, e', same_p) = modified_before id i epoch q e in
        let (p', f', same_p') = modified_before id j epoch r f in
        v.apart i j p p' e' f' (ground arith);
  }

  pub Pairs-activity :
      (id now : ℕ)
      → Pairs connections sessions
      → Pairs (modify id (λ c. record c { last_activity = now }) connections) sessions
  Pairs-activity id now v = record {
    tracked = λ i q e. ground (
      arith,
      v.tracked i q e,
      get-modify id q.backend_conn_id (λ c. record c { last_activity = now }) connections,
    );
    apart = v.apart;
  }
