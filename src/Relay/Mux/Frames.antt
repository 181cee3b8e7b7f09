-- ===== src/Relay/Mux/Frames.antt =====
-- The frames of one request among those that the server reads.
use single_proxy.Base.{
  zero, suc, ℕ, ◌<◌, ◌^◌, Str, List, [], ◌∷◌, ◌++◌, false, Option, none, some, All, map, length,
  take, drop, nat_key, ◌≡◌, refl, sym, ap, ◌∙◌, arith, inl, inr,
}
use single_proxy.Http.Header.{assign_all}
use single_proxy.Protocol.Message.{IsValid}
use single_proxy.Protocol.Wire.{wire_of}
use single_proxy.Client.Stream.{Answer, request_messages, head_payload}
use single_proxy.Server.Writer.Response.{head}
use single_proxy.Server.State.{Server, ok, Response}
use single_proxy.Server.Tunnel.{on_frames}
use single_proxy.Server.Tunnel.Live.{IsLive}
use single_proxy.Server.Tunnel.Streams.{concerns, frames_of}
use single_proxy.Server.Tunnel.Streams.Own.{on_frames-frames_of}
use single_proxy.Server.Public.Relay.{joined, IsOpen}
use single_proxy.Server.Public.Prefix.{IsPart, answer-IsPart}
use single_proxy.Relay.{answer-IsValid, on_frames-wire_of}

-- The frames that the server reads: the next one of a tunnel, if it has come, where the schedule has
-- `none`, and those of other tunnels.
abbrev pub mix : List (Option Str) → List Str → List Str
mix [] taken = []
mix (none ∷ schedule) [] = mix schedule []
mix (none ∷ schedule) (wire ∷ taken) = wire ∷ mix schedule taken
mix (some wire ∷ schedule) taken = wire ∷ mix schedule taken

-- No other tunnel has frames of the request.
abbrev pub IsOther : ℕ → Option Str → Type 0
IsOther id none = Unit
IsOther id (some wire) = concerns id wire ≡ false

-- A request's frames are read in their order, up to some point.
pub mix-frames_of :
    (id : ℕ) (schedule : List (Option Str)) (taken : List Str)
    → All (IsOther id) schedule
    → (unread : List Str) × (frames_of id (mix schedule taken) ++ unread ≡ frames_of id taken)
unfolding frames_of
mix-frames_of id [] taken others = (frames_of id taken, refl)
mix-frames_of id (none ∷ schedule) [] (o, others) = mix-frames_of id schedule [] others
mix-frames_of id (none ∷ schedule) (wire ∷ taken) (o, others) =
    let (unread, e) = mix-frames_of id schedule taken others in (unread, ground (arith, e))
mix-frames_of id (some wire ∷ schedule) taken (o, others) =
    let (unread, e) = mix-frames_of id schedule taken others in (unread, rw (o) e)

-- The start of a mapped list is the mapped start.
pub map-take-drop {ℓ κ} :
    {A : Type ℓ} {B : Type κ} (f : A → B) (l : List A) (xs ys : List B)
    → xs ++ ys ≡ map f l
    → (xs ≡ map f (take (length xs) l)) × (ys ≡ map f (drop (length xs) l))
map-take-drop f l [] ys e = (refl, e)
map-take-drop f [] (x ∷ xs) ys e = ground (arith, e)
map-take-drop f (y ∷ l) (x ∷ xs) ys e =
    let (start, left) = map-take-drop f l xs ys (ground (arith, e)) in
    (ground (arith, e, start), left)

pub All-take {ℓ κ} : {A : Type ℓ} (P : A → Type κ) (n : ℕ) (l : List A) → All P l → All P (take n l)
All-take P zero l h = tt
All-take P (suc n) [] h = tt
All-take P (suc n) (x ∷ l) (h, hs) = (h, All-take P n l hs)

map-nil {ℓ κ} : {A : Type ℓ} {B : Type κ} (f : A → B) (l : List A) → map f l ≡ [] → l ≡ []
map-nil f [] e = refl
map-nil f (x ∷ l) e = ground (arith, e)

pub ok_inj {ℓ} : {A : Type ℓ} {x y : A} → ok x ≡ ok y → x ≡ y
ok_inj e = cc

-- What the user was sent is that of another state with the same stream.
IsPart-map {ℓ κ} :
    {Limiter : Type 0} {A : Type ℓ} {B : Type κ} (f : A → B) (a : ℕ) (bytes : Str) (coming : List A)
    (coming' : List B) (s s' : Server Limiter)
    → coming' ≡ map f coming
    → s'.streams a ≡ s.streams a
    → IsPart a bytes coming s
    → IsPart a bytes coming' s'
IsPart-map f a bytes coming coming' s s' e stream part = record {
  unsent = part.unsent;
  whole = ap (λ st. st.writer.sent ++ part.unsent) stream ∙ part.whole;
  ends = elim part.ends [
    | inl (over, sent, done) ↦ inl (e ∙ ap (map f) over, sent, ap (λ st. st.done) stream ∙ done)
    | inr (more, pending) ↦ inr (
      λ none_left. more (map-nil f coming (sym e ∙ none_left)),
      ap (λ st. st.done) stream ∙ pending,
    )
  ];
}

module _ {Limiter : Type 0} (read_response : Str → Option Response) where
  -- What the server makes of frames of which those of a request begin its answer.
  pub frames-IsPart :
      (id a : ℕ) (r : Answer) (resp : Response) (s : Server Limiter) (frames coming : List Str)
      → id < 2 ^ 64
      → IsLive s
      → IsOpen id a s
      → (s.streams a).writer.header_written ≡ false
      → read_response (head_payload r) ≡ some resp
      → frames_of id frames ++ coming ≡ map wire_of (request_messages id (some r))
      → (s' : Server Limiter) × (on_frames read_response frames s ≡ ok s')
        × IsPart a
            ((s.streams a).writer.sent
              ++ (head resp.status_code (assign_all resp.header (s.streams a).writer.header)
                  ++ joined r.reads))
            coming
            s'
  frames-IsPart id a r resp s frames coming fits live o fresh parsed e =
      let (start, left) =
        map-take-drop wire_of (request_messages id (some r)) (frames_of id frames) coming e in
      let k = length (frames_of id frames) in
      let (s', t', all, own, stream, entry) =
        on_frames-frames_of read_response id a frames s live o.registered in
      let (t, e', part) = answer-IsPart read_response k id a r resp s o fresh parsed in
      let same : t' ≡ t = ok_inj (
        sym own
        ∙ ap (λ (x : List Str). on_frames read_response x s) start
        ∙ on_frames-wire_of read_response (take k (request_messages id (some r))) s
            (All-take IsValid k (request_messages id (some r)) (answer-IsValid id r fits))
        ∙ e') in
      (
        s',
        all,
        IsPart-map wire_of a _ _ coming t s' left (stream ∙ ap (λ x. x.streams a) same) part,
      )
