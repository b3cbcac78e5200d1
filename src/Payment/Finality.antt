-- ===== src/Payment/Finality.antt =====
-- What holds through every run of the methods: the end of a payment's life, the status that is never
-- entered, and the data that stays.
use noc_iq_be.Prelude.{String, ◌≡◌, refl, sym, ap, ◌∙◌, ◌≢◌, some, List, arith}
use noc_iq_be.Payment.Status.{
  PaymentStatus, pending, confirmed, failed, dead_letter, value, ◌⟶◌, confirm, fail, replay,
}
use noc_iq_be.Payment.Status
use noc_iq_be.Payment.Rows.{PaymentRow}
use noc_iq_be.Payment.Rules.{Moves, value_injective}
use noc_iq_be.Payment.Repository.{Payments, get}
use noc_iq_be.Payment.Traces.{Op, run, Evolves, stay, move, run-Evolves}

leaves_confirmed : {c n : PaymentStatus} → c ⟶ n → c ≡ confirmed → ⊥
leaves_confirmed confirm e = cc
leaves_confirmed fail e = cc
leaves_confirmed Status.retry e = cc
leaves_confirmed replay e = cc

enters_dead_letter : {c n : PaymentStatus} → c ⟶ n → n ≡ dead_letter → ⊥
enters_dead_letter confirm e = cc
enters_dead_letter fail e = cc
enters_dead_letter Status.retry e = cc
enters_dead_letter replay e = cc

confirmed_stuck : (r s : PaymentRow) → r.status ≡ "confirmed" → Moves r s → ⊥
confirmed_stuck r s h m =
    let (c, n, from, to, edge) = m.step in
    leaves_confirmed edge (value_injective c confirmed (sym from ∙ h))

Evolves-confirmed : {r s : PaymentRow} → Evolves r s → r.status ≡ "confirmed" → s ≡ r
Evolves-confirmed stay h = refl
Evolves-confirmed (move {r} {s} m k) h = absurd (confirmed_stuck r s h m)

-- A confirmed payment is final: no run of the methods changes its row or removes it.
pub confirmed_final :
    (ops : List Op) (t : Payments) (id : String) (r : PaymentRow)
    → get id t ≡ some r
    → r.status ≡ "confirmed"
    → get id (run ops t) ≡ some r
confirmed_final ops t id r found h =
    let (s, last, k) = run-Evolves ops t id r found in last ∙ ap some (Evolves-confirmed k h)

not_dead_letter :
    {r s : PaymentRow} → Evolves r s → r.status ≢ "dead_letter" → s.status ≢ "dead_letter"
not_dead_letter stay h e = h e
not_dead_letter (move {r} {s} m k) h e =
    not_dead_letter k
      (λ d.
        let (c, n, from, to, edge) = m.step in
        enters_dead_letter edge (value_injective n dead_letter (sym to ∙ d)))
      e

-- No method puts a stored payment into the dead-letter status that `replay_dead_letter` looks for: a
-- payment that is not in it is never found in it after any run.
pub dead_letter_unreachable :
    (ops : List Op) (t : Payments) (id : String) (r s : PaymentRow)
    → get id t ≡ some r
    → r.status ≢ "dead_letter"
    → get id (run ops t) ≡ some s
    → s.status ≢ "dead_letter"
dead_letter_unreachable ops t id r s found h last e =
    let (s', last', k) = run-Evolves ops t id r found in
    let same : s' ≡ s = cc in not_dead_letter k h (ap (λ (x : PaymentRow). x.status) same ∙ e)

Evolves-Frozen :
    {r s : PaymentRow}
    → Evolves r s
    → (s.amount ≡ r.amount)
      × (s.type ≡ r.type)
      × (s.to_address ≡ r.to_address)
      × (s.sla_result_id ≡ r.sla_result_id)
Evolves-Frozen stay = (refl, refl, refl, refl)
Evolves-Frozen (move m k) = ground (arith, Evolves-Frozen k, m.frozen)

-- Whatever the methods do to a stored payment, its amount, type, recipient and SLA result stay.
pub payment_data_kept :
    (ops : List Op) (t : Payments) (id : String) (r : PaymentRow)
    → get id t ≡ some r
    → (s : PaymentRow) × (get id (run ops t) ≡ some s)
      × (s.amount ≡ r.amount)
      × (s.type ≡ r.type)
      × (s.to_address ≡ r.to_address)
      × (s.sla_result_id ≡ r.sla_result_id)
payment_data_kept ops t id r found =
    let (s, last, k) = run-Evolves ops t id r found in
    let (a, b, c, d) = Evolves-Frozen k in (s, last, a, b, c, d)
