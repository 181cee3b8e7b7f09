-- ===== src/Server/Tunnel/Order.antt =====
-- The loop over the handlers in handleTunnelRegistration (pkg/server/server.go), which `range` goes
-- through in an order that Go leaves open.
use mathlib.Core.Path.{fun_ext, subst}
use mathlib.Core.List.{Permᴰ}
use single_proxy.Base.{
  ℕ, List, [], ◌∷◌, Bool, true, false, some, lookup, delete, ◌==◌, nat_key, nat_beq_iff, ◌≡◌, ◌≢◌,
  refl, sym, ap, ◌∙◌, arith, Bool-cases, inl, inr, Agrees, Agrees-self, Map, if◌then◌else◌,
}
use single_proxy.Server.State.{Server, Stream, update}
use single_proxy.Server.Tunnel.{cleanup, end_stream}
use single_proxy.Server.Tunnel.Live.{IsLive}

delete-delete : (i j : ℕ) (m : Map ℕ ℕ) → delete i (delete j m) ≡ delete j (delete i m)
unfolding delete
delete-delete i j [] = refl
delete-delete i j ((k, a) ∷ m) = ground (arith, delete-delete i j m)

update-update :
    (a b : ℕ) (x y : Stream) (f : ℕ → Stream)
    → a ≢ b
    → update (update f b y) a x ≡ update (update f a x) b y
update-update a b x y f apart =
    fun_ext (λ k. ground (arith, apart, nat_beq_iff a k, nat_beq_iff b k))

Agrees-Perm : (m : Map ℕ ℕ) {xs ys : List (ℕ × ℕ)} → Permᴰ xs ys → Agrees m xs → Agrees m ys
Agrees-Perm m Permᴰ.nil h = h
Agrees-Perm m (Permᴰ.cons e d) (h, hs) =
    (subst (λ (x : ℕ × ℕ). lookup x.0 m ≡ some x.1) e h, Agrees-Perm m d hs)
Agrees-Perm m (Permᴰ.swap e e') (h, (h', hs)) = (
  subst (λ (x : ℕ × ℕ). lookup x.0 m ≡ some x.1) e' h',
  (subst (λ (x : ℕ × ℕ). lookup x.0 m ≡ some x.1) e h, hs),
)
Agrees-Perm m (Permᴰ.trans d d') h = Agrees-Perm m d' (Agrees-Perm m d h)

module _ {Limiter : Type 0} where
  -- A round of the loop.
  abbrev ended : ℕ × ℕ → Server Limiter → Server Limiter
  ended (id, a) s = if (s.streams a).done then s else end_stream id a s

  -- The state with other streams and requests.
  abbrev with_streams : Server Limiter → (ℕ → Stream) → Map ℕ ℕ → Server Limiter
  with_streams s f m = record s { streams = f; stream_handlers = m }

  over_ended : (i a : ℕ) (s : Server Limiter) → (s.streams a).done ≡ true → ended (i, a) s ≡ s
  over_ended i a s over = ap (λ (x : Bool). if x then s else end_stream i a s) over

  pending_ended :
      (i a : ℕ) (s : Server Limiter)
      → (s.streams a).done ≡ false
      → ended (i, a) s ≡ end_stream i a s
  pending_ended i a s pending = ap (λ (x : Bool). if x then s else end_stream i a s) pending

  -- The end of one stream is nothing to another.
  other_done :
      (i a b : ℕ) (s : Server Limiter) → a ≢ b → ((end_stream i a s).streams b) ≡ s.streams b
  other_done i a b s apart = ground (arith, apart, nat_beq_iff a b)

  end_stream-end_stream :
      (i a j b : ℕ) (s : Server Limiter)
      → a ≢ b
      → end_stream j b (end_stream i a s) ≡ end_stream i a (end_stream j b s)
  end_stream-end_stream i a j b s apart =
      let x : Stream = record (s.streams a) { done = true } in
      let y : Stream = record (s.streams b) { done = true } in
      let back : b ≢ a = λ e. apart (sym e) in
      ap
        (λ (st : Stream).
          with_streams s (update (update s.streams a x) b (record st { done = true }))
            (delete j (delete i s.stream_handlers)))
        (other_done i a b s apart)
      ∙ ap (λ (f : ℕ → Stream). with_streams s f (delete j (delete i s.stream_handlers)))
          (update-update b a y x s.streams back)
      ∙ ap (with_streams s (update (update s.streams b y) a x))
          (delete-delete j i s.stream_handlers)
      ∙ ap
          (λ (st : Stream).
            with_streams s (update (update s.streams b y) a (record st { done = true }))
              (delete i (delete j s.stream_handlers)))
          (sym (other_done j b a s back))

  ended-ended :
      (i a j b : ℕ) (s : Server Limiter)
      → a ≢ b
      → ended (j, b) (ended (i, a) s) ≡ ended (i, a) (ended (j, b) s)
  ended-ended i a j b s apart =
      let back : b ≢ a = λ e. apart (sym e) in
      elim (Bool-cases (s.streams a).done) [
        | inl over ↦ elim (Bool-cases (s.streams b).done) [
          | inl over' ↦
              ap (ended (j, b)) (over_ended i a s over)
              ∙ over_ended j b s over'
              ∙ sym (ap (ended (i, a)) (over_ended j b s over') ∙ over_ended i a s over)
          | inr pending' ↦
              ap (ended (j, b)) (over_ended i a s over)
              ∙ pending_ended j b s pending'
              ∙ sym (
                  ap (ended (i, a)) (pending_ended j b s pending')
                  ∙ over_ended i a (end_stream j b s)
                      (ap (λ (st : Stream). st.done) (other_done j b a s back) ∙ over))
        ]
        | inr pending ↦ elim (Bool-cases (s.streams b).done) [
          | inl over' ↦
              ap (ended (j, b)) (pending_ended i a s pending)
              ∙ over_ended j b (end_stream i a s)
                  (ap (λ (st : Stream). st.done) (other_done i a b s apart) ∙ over')
              ∙ sym (ap (ended (i, a)) (over_ended j b s over') ∙ pending_ended i a s pending)
          | inr pending' ↦
              ap (ended (j, b)) (pending_ended i a s pending)
              ∙ pending_ended j b (end_stream i a s)
                  (ap (λ (st : Stream). st.done) (other_done i a b s apart) ∙ pending')
              ∙ end_stream-end_stream i a j b s apart
              ∙ sym (
                  ap (ended (i, a)) (pending_ended j b s pending')
                  ∙ pending_ended i a (end_stream j b s)
                      (ap (λ (st : Stream). st.done) (other_done j b a s back) ∙ pending))
        ]
      ]

  -- Two entries of a map in which no stream stands twice.
  entries_ended :
      (m : Map ℕ ℕ) (x y : ℕ × ℕ) (s : Server Limiter)
      → ((i j a : ℕ) → lookup i m ≡ some a → lookup j m ≡ some a → i ≡ j)
      → lookup x.0 m ≡ some x.1
      → lookup y.0 m ≡ some y.1
      → ended y (ended x s) ≡ ended x (ended y s)
  entries_ended m (i, a) (j, b) s distinct e e' = elim (Bool-cases (a == b)) [
    | inl same ↦
        let streams : a ≡ b = (nat_beq_iff a b).0 same in
        let ids : i ≡ j = distinct i j b (e ∙ ap some streams) e' in
        ap (λ (k : ℕ). ended (j, b) (ended (k, a) s)) ids
        ∙ ap (λ (c : ℕ). ended (j, b) (ended (j, c) s)) streams
        ∙ sym (
            ap (λ (k : ℕ). ended (k, a) (ended (j, b) s)) ids
            ∙ ap (λ (c : ℕ). ended (j, c) (ended (j, b) s)) streams)
    | inr apart ↦ ended-ended i a j b s (λ same. ground (arith, apart, (nat_beq_iff a b).1 same))
  ]

  -- The order of the entries of a map does not matter.
  cleanup-Perm :
      (m : Map ℕ ℕ) {xs ys : List (ℕ × ℕ)} (s : Server Limiter)
      → ((i j a : ℕ) → lookup i m ≡ some a → lookup j m ≡ some a → i ≡ j)
      → Permᴰ xs ys
      → Agrees m xs
      → cleanup xs s ≡ cleanup ys s
  unfolding cleanup
  cleanup-Perm m s distinct Permᴰ.nil h = refl
  cleanup-Perm m s distinct (Permᴰ.cons {b = y} {l₁ = l₁} e d) (h, hs) =
      ap (λ (z : ℕ × ℕ). cleanup l₁ (ended z s)) e ∙ cleanup-Perm m (ended y s) distinct d hs
  cleanup-Perm m s distinct (Permᴰ.swap {a = x} {b = y} {a' = y'} {b' = x'} {l = l} e e')
        (h, (h', hs)) =
      ap (cleanup l) (entries_ended m x y s distinct h h')
      ∙ ap (λ (z : ℕ × ℕ). cleanup l (ended z (ended y s))) e
      ∙ ap (λ (z : ℕ × ℕ). cleanup l (ended x' (ended z s))) e'
  cleanup-Perm m s distinct (Permᴰ.trans d d') h =
      cleanup-Perm m s distinct d h ∙ cleanup-Perm m s distinct d' (Agrees-Perm m d h)

  -- If the registered streams are open, distinct and listed once, the loop that ends them gives the
  -- same state in whatever order it goes through the map.
  pub cleanup-any_order :
      (order : List (ℕ × ℕ)) (s : Server Limiter)
      → IsLive s
      → Permᴰ s.stream_handlers order
      → cleanup order s ≡ cleanup s.stream_handlers s
  cleanup-any_order order s v p =
      sym (cleanup-Perm s.stream_handlers s v.distinct p (Agrees-self s.stream_handlers v.unique))
