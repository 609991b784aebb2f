-- ===== src/Proxy/Exchange/Sent.antt =====
-- The two exchanges with the daemon in src/main.rs send the request they are given, or nothing.
use docker_proxy.Common.{◌≡◌, refl, ◌⊎◌, inl, inr, none, some, List, arith, Str, Bool-cases}
use docker_proxy.Externals.{Externals}
use docker_proxy.Config.{ResponseFilterEntry}
use docker_proxy.Proxy.{ProxyState, UpstreamRequest, Handled}
use docker_proxy.Proxy.Cases.{BodyRead-cases}
use docker_proxy.Proxy.Exchange.{
  Daemon, Connection, connected, refused, stalled, Reply, replied, send_failed, send_stalled,
  UpstreamResponse, exchange, read_response, respond,
}
use docker_proxy.Proxy.Upgrades.{handle_upgrade}

Connection-cases : (c : Connection) → (c ≡ connected) ⊎ (c ≡ refused) ⊎ (c ≡ stalled)
Connection-cases connected = inl refl
Connection-cases refused = inr (inl refl)
Connection-cases stalled = inr (inr refl)

Reply-cases :
    (r : Reply)
    → ((res : UpstreamResponse) × (r ≡ replied res)) ⊎ (r ≡ send_failed) ⊎ (r ≡ send_stalled)
Reply-cases (replied res) = inl (res, refl)
Reply-cases send_failed = inr (inl refl)
Reply-cases send_stalled = inr (inr refl)

-- Nothing was sent to the daemon, or this request.
abbrev pub Sends : Handled → UpstreamRequest → Type 0
Sends h r = (h.forwarded ≡ none) ⊎ (h.forwarded ≡ some r)

module _ (x : Externals) (d : Daemon) where
  respond_sends :
      (filters : List ResponseFilterEntry) (r : UpstreamRequest) (res : UpstreamResponse)
      (bytes : Str) (s : ProxyState)
      → (respond x d filters r res bytes s).forwarded ≡ some r
  unfolding respond
  respond_sends filters r res bytes s = ground arith

  read_response_sends :
      (filters : List ResponseFilterEntry) (r : UpstreamRequest) (res : UpstreamResponse)
      (s : ProxyState)
      → (read_response x d filters r res s).forwarded ≡ some r
  unfolding read_response
  read_response_sends filters r res s = elim (BodyRead-cases res.body) [
    | inl (bytes, e) ↦ rw e (respond_sends filters r res bytes s)
    | inr (inl e) ↦ rw e refl
    | inr (inr (inl e)) ↦ rw e refl
    | inr (inr (inr e)) ↦ rw e refl
  ]

  pub exchange-Sends :
      (filters : List ResponseFilterEntry) (r : UpstreamRequest) (s : ProxyState)
      → Sends (exchange x d filters r s) r
  unfolding exchange
  exchange-Sends filters r s = elim (Connection-cases d.connect) [
    | inr (inl e) ↦ inl (rw e refl)
    | inr (inr e) ↦ inl (rw e refl)
    | inl e ↦ elim (Bool-cases d.handshake) [
      | inr off ↦ inl (rw (e, off) refl)
      | inl on ↦ elim (Bool-cases (d.request_builds r)) [
        | inr off ↦ inl (rw (e, on, off) refl)
        | inl built ↦ elim (Reply-cases (d.send_request r)) [
          | inl (res, got) ↦ inr (rw (e, on, built, got) (read_response_sends filters r res s))
          | inr (inl got) ↦ inr (rw (e, on, built, got) refl)
          | inr (inr got) ↦ inr (rw (e, on, built, got) refl)
        ]
      ]
    ]
  ]

  pub handle_upgrade-Sends : (r : UpstreamRequest) (s : ProxyState) → Sends (handle_upgrade d r s) r
  unfolding handle_upgrade
  handle_upgrade-Sends r s = elim (Connection-cases d.connect) [
    | inr (inl e) ↦ inl (rw e refl)
    | inr (inr e) ↦ inl (rw e refl)
    | inl e ↦ elim (Bool-cases d.handshake) [
      | inr off ↦ inl (rw (e, off) refl)
      | inl on ↦ elim (Bool-cases (d.request_builds r)) [
        | inr off ↦ inl (rw (e, on, off) refl)
        | inl built ↦ elim (Reply-cases (d.send_request r)) [
          | inl (res, got) ↦ inr (rw (e, on, built, got) refl)
          | inr (inl got) ↦ inr (rw (e, on, built, got) refl)
          | inr (inr got) ↦ inr (rw (e, on, built, got) refl)
        ]
      ]
    ]
  ]
