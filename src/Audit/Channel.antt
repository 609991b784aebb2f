-- ===== src/Audit/Channel.antt =====
-- Which events the channel of src/audit.rs keeps while nothing is taken from it.
use docker_proxy.Common.{
  ℕ, zero, suc, ◌-◌, ◌≤◌, ◌<◌, ◌≡◌, refl, sym, ap, ◌∙◌, inl, inr, List, [], ◌∷◌, ◌++◌, arith,
  length, length-append, take, ltb, Bool-cases,
}
use docker_proxy.Audit.{AuditEvent, AuditSink, open_sink, send, audit_capacity}

pub send_all : List AuditEvent → AuditSink → AuditSink
send_all [] sink = sink
send_all (ev ∷ events) sink = send_all events (send ev sink)

append_end : (queue : List AuditEvent) → queue ++ [] ≡ queue
append_end [] = refl
append_end (ev ∷ queue) = ap (λ q. ev ∷ q) (append_end queue)

append_one :
    (queue events : List AuditEvent) (ev : AuditEvent)
    → (queue ++ ev ∷ []) ++ events ≡ queue ++ ev ∷ events
append_one [] events ev = refl
append_one (e ∷ queue) events ev = ap (λ q. e ∷ q) (append_one queue events ev)

pub send_room :
    (ev : AuditEvent) (queue : List AuditEvent)
    → length queue < audit_capacity
    → send ev (open_sink queue) ≡ open_sink (queue ++ ev ∷ [])
unfolding send
send_room ev queue h = ground (arith, h)

send_full :
    (ev : AuditEvent) (queue : List AuditEvent)
    → audit_capacity ≤ length queue
    → send ev (open_sink queue) ≡ open_sink queue
unfolding send
send_full ev queue h = ground (arith, h)

abbrev nothing : List AuditEvent
nothing = []

take_nil : (n : ℕ) → take n nothing ≡ nothing
take_nil zero = refl
take_nil (suc n) = refl

take_room :
    (room : ℕ) (left : ℕ) (queue events : List AuditEvent) (ev : AuditEvent)
    → room ≡ suc left
    → (queue ++ ev ∷ []) ++ take left events ≡ queue ++ take room (ev ∷ events)
take_room room left queue events ev e = append_one queue (take left events) ev ∙ rw e refl

-- Events that are sent while none is taken out stand behind those in the channel, in their order, as
-- far as its 4096 places reach; the rest are dropped.
pub send_all_lem :
    (events queue : List AuditEvent)
    → length queue ≤ audit_capacity
    → send_all events (open_sink queue)
      ≡ open_sink (queue ++ take (audit_capacity - length queue) events)
unfolding send_all
send_all_lem [] queue h =
    ap (λ q. open_sink q) (sym (append_end queue) ∙ ap (λ t. queue ++ t) (sym (take_nil _)))
send_all_lem (ev ∷ events) queue h = elim (Bool-cases (ltb (length queue) audit_capacity)) [
  | inl room ↦
      let longer = length-append queue (ev ∷ []) in
      let left : audit_capacity - length queue ≡ suc (audit_capacity - length (queue ++ ev ∷ [])) =
        ground (arith, room, longer) in
      ap (λ s. send_all events s) (send_room ev queue (ground (arith, room)))
      ∙ (send_all_lem events (queue ++ ev ∷ []) (ground (arith, room, longer))
          ∙ ap (λ q. open_sink q) (take_room _ _ queue events ev left))
  | inr full ↦
      let none_left : audit_capacity - length queue ≡ 0 = ground (arith, full, h) in
      ap (λ s. send_all events s) (send_full ev queue (ground (arith, full)))
      ∙ (send_all_lem events queue h ∙ rw none_left refl)
]
