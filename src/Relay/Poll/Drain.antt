-- ===== src/Relay/Poll/Drain.antt =====
-- The rounds of StartPolling while requests are queued for the polling client.
use single_proxy.Base.{
  ℕ, suc, ◌^◌, ◌<◌, Str, List, [], ◌∷◌, ◌++◌, map, length, All, true, false, none, some, lookup,
  nat_key, str_key, ◌≡◌, ◌≢◌, ◌⊎◌, refl, ap, ◌∙◌, arith,
}
use single_proxy.Http.Header.{add_all}
use single_proxy.Protocol.Http.{Request}
use single_proxy.Protocol.Message.{TunnelMessage}
use single_proxy.Client.Poll.{
  PollingClient, Web, Answered, poll_once, start_polling, answer_text, target_url, target_request,
}
use single_proxy.Server.Public.Open.{request_message}
use single_proxy.Server.Public.Relay.{IsOpen}
use single_proxy.Server.Writer.Response.{head}
use single_proxy.Server.State.{Server, ok, Response, Stream}
use single_proxy.Relay.Poll.{Link, web_of}
use single_proxy.Relay.Poll.Linked.{IsLinked}
use single_proxy.Relay.Poll.Round.{IsServed, poll-round}

-- A request that is queued, and what its target makes of it: `resp` is what http.ReadResponse finds
-- in the client's text of the answer.
pub record Job : Type 0 where
  pub id : ℕ
  pub stream : ℕ
  pub payload : Str
  pub asked : Request
  pub answer : Answered
  pub read : Str
  pub resp : Response
  pub content : Str

abbrev pub job_message : Job → TunnelMessage
job_message job = request_message job.id job.payload

-- What the outside user of the request is sent by then.
abbrev pub user_bytes : Job → Stream → Str
user_bytes job st =
    st.writer.sent
    ++ (head job.resp.status_code (add_all job.resp.header st.writer.header) ++ job.content)

-- The streams of the requests are different.
abbrev pub Distinct : List Job → Type 0
Distinct [] = Unit
Distinct (job ∷ jobs) = All (λ (other : Job). job.stream ≢ other.stream) jobs × Distinct jobs

module _ {Limiter : Type 0} where
  -- The user of the request has been sent the answer, and the stream has ended.
  pub record IsDone (s s' : Server Limiter) (job : Job) : Type 0 where
    pub sent : (s'.streams job.stream).writer.sent ≡ user_bytes job (s.streams job.stream)
    pub done : (s'.streams job.stream).done ≡ true

  -- What the rounds leave alone, and the queue that they leave.
  pub record IsDrained (k : ℕ) (jobs : List Job) (rest : List TunnelMessage) (s s' : Server Limiter)
      : Type 0 where
    pub all_done : All (IsDone s s') jobs
    pub clients : s'.tunnel_clients ≡ s.tunnel_clients
    pub left : (s'.tunnels k).poll_chan.queue ≡ rest
    pub others : (b : ℕ) → All (λ (job : Job). b ≢ job.stream) jobs → s'.streams b ≡ s.streams b

  -- A stream that no later round touches keeps what a round made of it.
  IsDone-kept :
      (k : ℕ) (job : Job) (jobs : List Job) (left rest : List TunnelMessage)
      (s s₁ s' : Server Limiter)
      → IsServed k job.stream (user_bytes job (s.streams job.stream)) left s s₁
      → All (λ (other : Job). job.stream ≢ other.stream) jobs
      → IsDrained k jobs rest s₁ s'
      → IsDone s s' job
  IsDone-kept k job jobs left rest s s₁ s' served apart drained =
      let same = drained.others job.stream apart in
      record {
        sent = ap (λ st. st.writer.sent) same ∙ served.sent;
        done = ap (λ st. st.done) same ∙ served.done;
      }

  -- What is done for requests whose streams an earlier round left alone.
  All-IsDone :
      (a : ℕ) (s s₁ s' : Server Limiter) (jobs : List Job)
      → ((b : ℕ) → (a ≡ b) ⊎ (s₁.streams b ≡ s.streams b))
      → All (λ (job : Job). a ≢ job.stream) jobs
      → All (IsDone s₁ s') jobs
      → All (IsDone s s') jobs
  All-IsDone a s s₁ s' [] others apart ds = tt
  All-IsDone a s s₁ s' (job ∷ jobs) others (differs, apart) (d, ds) =
      let same : s₁.streams job.stream ≡ s.streams job.stream =
        ground (arith, others job.stream, differs) in
      (
        record { sent = d.sent ∙ ap (user_bytes job) same; done = d.done },
        All-IsDone a s s₁ s' jobs others apart ds,
      )

module _ {Limiter : Type 0} (link : Link) (c : PollingClient) where
  -- The request waits on an open stream that has been sent no header, and its target answers.
  pub record IsJob (s : Server Limiter) (job : Job) : Type 0 where
    pub fits : job.id < 2 ^ 64
    pub waits : IsOpen job.id job.stream s
    pub fresh : (s.streams job.stream).writer.header_written ≡ false
    pub parses : link.read_request job.payload ≡ some job.asked
    pub makes : link.makes_request job.asked.method (target_url c job.asked) ≡ true
    pub answers : link.target (target_request c job.asked) ≡ some job.answer
    pub whole : job.answer.body ≡ some job.read
    pub reads : link.env.read_response (answer_text job.answer job.read) ≡ some job.resp
    pub complete : job.resp.body ≡ some job.content

  IsJob-kept :
      (k a : ℕ) (bytes : Str) (rest : List TunnelMessage) (s s' : Server Limiter) (job : Job)
      → IsServed k a bytes rest s s'
      → a ≢ job.stream
      → IsJob s job
      → IsJob s' job
  IsJob-kept k a bytes rest s s' job served apart j =
      let same : s'.streams job.stream ≡ s.streams job.stream =
        ground (arith, served.others job.stream, apart) in
      record {
        fits = j.fits;
        waits = record {
          registered = ap (lookup job.id) served.handlers ∙ j.waits.registered;
          pending = ap (λ st. st.done) same ∙ j.waits.pending;
          up = ap (λ st. st.writer.alive) same ∙ j.waits.up;
        };
        fresh = ap (λ st. st.writer.header_written) same ∙ j.fresh;
        parses = j.parses;
        makes = j.makes;
        answers = j.answers;
        whole = j.whole;
        reads = j.reads;
        complete = j.complete;
      }

  All-IsJob :
      (k a : ℕ) (bytes : Str) (rest : List TunnelMessage) (s s' : Server Limiter) (jobs : List Job)
      → IsServed k a bytes rest s s'
      → All (λ (job : Job). a ≢ job.stream) jobs
      → All (IsJob s) jobs
      → All (IsJob s') jobs
  All-IsJob k a bytes rest s s' [] served apart js = tt
  All-IsJob k a bytes rest s s' (job ∷ jobs) served (differs, apart) (j, js) = (
    IsJob-kept k a bytes rest s s' job served differs j,
    All-IsJob k a bytes rest s s' jobs served apart js,
  )

-- A round without an error, and those behind it.
first_round :
    {World : Type 0} (web : Web World) (c : PollingClient) (n : ℕ) (w w₁ w' : World)
    (sleeps : List ℕ)
    → poll_once web c w ≡ (none, w₁)
    → start_polling web n c w₁ ≡ (sleeps, w')
    → start_polling web (suc n) c w ≡ (0 ∷ sleeps, w')
unfolding start_polling
first_round web c n w w₁ w' sleeps polls rounds = rw (polls) (rw (rounds) refl)

module _ {Limiter : Type 0} (link : Link) (c : PollingClient) (linked : IsLinked link c) where
  -- Take a polling client whose URLs lead to the server and whose key is registered, and let its queue
  -- start with requests that wait on different open streams which have been sent no header. If each
  -- request parses, the target answers it with a body that can be read, and http.ReadResponse parses
  -- the client's text of that answer, then as many rounds of polling as there are requests neither
  -- fail, nor sleep, nor panic the server; the user of each request has been sent the status and the
  -- added headers of the parsed response and its whole body, and the stream has ended; what else was
  -- queued is left, all other streams are as they were, and the same polling clients are registered.
  pub start_polling-drains :
      (k : ℕ) (jobs : List Job) (rest : List TunnelMessage) (s : Server Limiter)
      → lookup c.key s.tunnel_clients ≡ some k
      → (s.tunnels k).poll_chan.queue ≡ map job_message jobs ++ rest
      → Distinct jobs
      → All (IsJob link c s) jobs
      → (s' : Server Limiter) × (start_polling (web_of link) (length jobs) c (ok s)
          ≡ (map (λ (job : Job). 0) jobs, ok s'))
        × IsDrained k jobs rest s s'
  unfolding start_polling
  start_polling-drains k [] rest s e queued distinct js =
      (s, refl, record { all_done = tt; clients = refl; left = queued; others = λ b apart. refl })
  start_polling-drains k (job ∷ jobs) rest s e queued (apart, distinct) (j, js) =
      let (s₁, polls, served) =
        poll-round link c linked k job.id job.stream job.payload (map job_message jobs ++ rest)
          job.asked job.answer job.read job.content job.resp s j.fits e queued j.waits j.fresh
          j.parses j.makes j.answers j.whole j.reads j.complete in
      let (s', rounds, drained) =
        start_polling-drains k jobs rest s₁ (ap (lookup c.key) served.clients ∙ e) served.left
          distinct (All-IsJob link c k job.stream _ _ s s₁ jobs served apart js) in
      (
        s',
        first_round (web_of link) c (length jobs) (ok s) (ok s₁) (ok s') _ polls rounds,
        record {
          all_done = (
            IsDone-kept k job jobs _ rest s s₁ s' served apart drained,
            All-IsDone job.stream s s₁ s' jobs served.others apart drained.all_done,
          );
          clients = drained.clients ∙ served.clients;
          left = drained.left;
          others =
              λ b (differs, more). drained.others b more ∙ ground (arith, served.others b, differs);
        },
      )
