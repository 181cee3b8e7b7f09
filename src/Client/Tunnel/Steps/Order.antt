-- ===== src/Client/Tunnel/Steps/Order.antt =====
-- The order in which the messages of the WebSocket client reach its connections.
use single_proxy.Base.{
  ℕ, ◌<◌, Str, List, [], ◌∷◌, ◌++◌, Option, none, some, nat_key, ◌≡◌, inl, inr, refl, sym, ap, ◌∙◌,
  arith, append_assoc, append-nil,
}
use single_proxy.Server.State.{Outcome, ok, ◌>>=◌}
use single_proxy.Client.Tunnel.{TunnelClient, WriterLoop}
use single_proxy.Client.Tunnel.Loops.{
  Target, Moved, quiet, write_next, writer_stops, queue_next, ping, pong,
}
use single_proxy.Client.Tunnel.Steps.{
  Event, dials, reads, loses, writes, stops, queues, drops, pings, pongs, happen, happen_all,
  and_then, with_writer, moved_to,
}
use single_proxy.Client.Tunnel.Steps.Rounds.{
  IsWf, own, texts, Step, quiet-Step, idle-Step, run_round-Step, read_loop_end-Step,
}
use single_proxy.Client.Tunnel.Steps.Messages.{
  write_next-Step, stop_on-Step, queue_from-Step, on_data-Step, abandon-Step,
}

-- A step of a writer that runs, and no step of one that does not.
with_writer-Step :
    (step : WriterLoop → TunnelClient → Outcome Moved) (running : Option WriterLoop)
    (c : TunnelClient)
    → IsWf c
    → ((l : WriterLoop) → running ≡ some l → (m : Moved) × (step l c ≡ ok m) × Step c m)
    → (m : Moved) × (with_writer step running c ≡ ok m) × Step c m
unfolding with_writer
with_writer-Step step none c v runs = (quiet c, refl, idle-Step c v)
with_writer-Step step (some l) c v runs = runs l refl

pub happen-Step :
    (target : Target) (e : Event) (c : TunnelClient)
    → IsWf c
    → (m : Moved) × (happen target e c ≡ ok m) × Step c m
unfolding happen moved_to queue_next writer_stops ping pong
happen-Step target (dials succeeds) c v = (_, refl, run_round-Step succeeds c v)
happen-Step target (reads bytes) c v = (_, refl, on_data-Step target bytes c v)
happen-Step target loses c v =
    let (c', e, st) = read_loop_end-Step c v in (quiet c', ap moved_to e, st)
happen-Step target (writes i delivers) c v =
    with_writer-Step (write_next delivers i) (c.writers i) c v
      (λ l w. write_next-Step delivers i l c v w)
happen-Step target (stops i) c v =
    with_writer-Step (λ l c'. ok (quiet (writer_stops i l c'))) (c.writers i) c v
      (λ l w. (_, refl, stop_on-Step i l l.stop c v))
happen-Step target (queues j) c v = (_, refl, queue_from-Step j (c.handlers j) c v refl)
happen-Step target (drops j) c v = (_, refl, abandon-Step j c v)
happen-Step target (pings now) c v = (
  _,
  refl,
  quiet-Step c (ping now c) (record { messages = refl; same_handlers = refl; same_next = refl })
      (record { reading = v.reading; writing = v.writing; bounded = v.bounded }),
)
happen-Step target (pongs now) c v = (
  _,
  refl,
  quiet-Step c (pong now c) (record { messages = refl; same_handlers = refl; same_next = refl })
      (record { reading = v.reading; writing = v.writing; bounded = v.bounded }),
)

-- A step and those behind it.
abbrev pub both : Moved → Moved → Moved
both m m' = record {
  accepted = m.accepted ++ m'.accepted;
  taken = m.taken ++ m'.taken;
  after = m'.after;
}

pub happen_all-next :
    (target : Target) (e : Event) (events : List Event) (c : TunnelClient) (m m' : Moved)
    → happen target e c ≡ ok m
    → happen_all target events m.after ≡ ok m'
    → happen_all target (e ∷ events) c ≡ ok (both m m')
unfolding happen_all
happen_all-next target e events c m m' step steps =
    ap (λ (o : Outcome Moved). o >>= λ n. and_then n (happen_all target events n.after)) step
    ∙ ap (and_then m) steps

pub texts-append : (a b : List (ℕ × Str)) → texts (a ++ b) ≡ texts a ++ texts b
texts-append [] b = refl
texts-append (x ∷ a) b = ap (◌∷◌ x.1) (texts-append a b)

pub own-append : (j : ℕ) (a b : List (ℕ × Str)) → own j (a ++ b) ≡ own j a ++ own j b
own-append j [] b = refl
own-append j ((i, bytes) ∷ a) b = ground (arith, own-append j a b)

-- What any steps do with messages: they leave the channel in the order in which they were queued,
-- and what a handler queued is the start of what it had to queue.
pub record InOrder (c : TunnelClient) (m : Moved) : Type 0 where
  pub wf : IsWf m.after
  pub fifo : c.write_chan ++ texts m.accepted ≡ m.taken ++ m.after.write_chan
  pub starts :
      (j : ℕ) → j < c.next_handler → (rest : List Str) × (own j m.accepted ++ rest ≡ c.handlers j)

chained :
    (w w₁ w₂ a b t u : List Str)
    → w ++ a ≡ t ++ w₁
    → w₁ ++ b ≡ u ++ w₂
    → w ++ (a ++ b) ≡ (t ++ u) ++ w₂
chained w w₁ w₂ a b t u first later =
    sym (append_assoc w a b)
    ∙ ap (λ (x : List Str). x ++ b) first
    ∙ append_assoc t w₁ b
    ∙ ap (◌++◌ t) later
    ∙ sym (append_assoc t u w₂)

both-fifo :
    (c : TunnelClient) (m m' : Moved)
    → Step c m
    → InOrder m.after m'
    → c.write_chan ++ texts (m.accepted ++ m'.accepted)
      ≡ (m.taken ++ m'.taken) ++ m'.after.write_chan
both-fifo c m m' st all =
    ap (◌++◌ c.write_chan) (texts-append m.accepted m'.accepted)
    ∙ chained c.write_chan m.after.write_chan m'.after.write_chan (texts m.accepted)
        (texts m'.accepted) m.taken m'.taken st.fifo all.fifo

nothing_before : (xs ys : List Str) → xs ++ ys ≡ [] → xs ≡ []
nothing_before [] ys e = refl
nothing_before (x ∷ xs) ys e = cc

both-starts :
    (j : ℕ) (c : TunnelClient) (m m' : Moved)
    → Step c m
    → InOrder m.after m'
    → j < c.next_handler
    → (rest : List Str) × (own j (m.accepted ++ m'.accepted) ++ rest ≡ c.handlers j)
both-starts j c m m' st all below =
    let (rest, e) = all.starts j (ground (arith, below, st.grows)) in
    let parts = ap (λ (x : List Str). x ++ rest) (own-append j m.accepted m'.accepted) in
    elim (st.moves j below) [
      | inl on ↦ (
        rest,
        parts
            ∙ append_assoc (own j m.accepted) (own j m'.accepted) rest
            ∙ ap (◌++◌ (own j m.accepted)) e
            ∙ on,
      )
      | inr (no_more, ended) ↦ (
        c.handlers j,
        ap (λ (x : List Str). x ++ c.handlers j)
            (own-append j m.accepted m'.accepted
              ∙ ap (λ (x : List Str). x ++ own j m'.accepted) no_more
              ∙ nothing_before (own j m'.accepted) rest (e ∙ ended)),
      )
    ]

pub both-InOrder :
    (c : TunnelClient) (m m' : Moved) → Step c m → InOrder m.after m' → InOrder c (both m m')
both-InOrder c m m' st all = record {
  wf = all.wf;
  fifo = both-fifo c m m' st all;
  starts = λ j below. both-starts j c m m' st all below;
}

pub quiet-InOrder : (c : TunnelClient) → IsWf c → InOrder c (quiet c)
quiet-InOrder c v = record {
  wf = v;
  fifo = append-nil c.write_chan;
  starts = λ j below. (c.handlers j, refl);
}

-- If a client that reads has an open channel, a client with a writer has a connection, and the
-- channel of messages holds no more than 256, then whatever happens in whatever order, with rounds of
-- Run that succeed or fail, data, lost connections, writes that fail, writers that stop and handlers
-- that give up, the client does not panic and the condition still holds; the messages that writers
-- take from the channel, followed by those that are left in it, are those that were in it at first,
-- followed by those that were queued, in their order; and what each handler queued is the start of
-- what it had to queue.
pub happen_all-InOrder :
    (target : Target) (events : List Event) (c : TunnelClient)
    → IsWf c
    → (m : Moved) × (happen_all target events c ≡ ok m) × InOrder c m
unfolding happen_all
happen_all-InOrder target [] c v = (quiet c, refl, quiet-InOrder c v)
happen_all-InOrder target (e ∷ events) c v =
    let (m, steps, st) = happen-Step target e c v in
    let (m', all_steps, all) = happen_all-InOrder target events m.after st.wf in
    (both m m', happen_all-next target e events c m m' steps all_steps, both-InOrder c m m' st all)
