-- ===== src/Server/Writer/Response.antt =====
-- What a connection carries after any use of its httpResponseWriter.
use single_proxy.Base.{
  ℕ, Str, codes, List, [], ◌∷◌, ◌++◌, true, false, ◌≡◌, refl, arith, append_assoc, append-nil, ap,
  sym, ◌∙◌,
}
use single_proxy.Http.Header.{Header, set, add}
use single_proxy.Http.Status.{status_ok, status_text, decimal}
use single_proxy.Server.Writer.{
  Writer, new_writer, crlf, status_line, value_lines, header_lines, write_header, write, flush,
}

-- The calls that a handler makes on its ResponseWriter.
pub data Call : Type 0 where
  calls_write_header : ℕ → Call
  calls_write : Str → Call
  calls_set calls_add : Str → Str → Call
  calls_flush : Call

pub perform : Writer → Call → Writer
unfolding write_header write
perform w (calls_write_header code) = write_header code w
perform w (calls_write bytes) = (write bytes w).1
perform w (calls_set k v) = record w { header = set k v w.header }
perform w (calls_add k v) = record w { header = add k v w.header }
perform w calls_flush = flush w

pub perform_all : Writer → List Call → Writer
unfolding perform
perform_all w [] = w
perform_all w (c ∷ cs) = perform_all (perform w c) cs

-- A status line, the headers, an empty line.
abbrev pub head : ℕ → Header → Str
head code h = status_line code ++ (header_lines h ++ crlf)

-- The bodies of all writes, in order.
abbrev pub bodies : List Call → Str
bodies [] = []
bodies (calls_write bytes ∷ cs) = bytes ++ bodies cs
bodies (c ∷ cs) = bodies cs

-- The lines of one name, and those of a header: a name, a colon and a space, a value, CR and LF.
abbrev pub name_lines : Str → List Str → Str
name_lines key [] = []
name_lines key (v ∷ vs) = key ++ (b':' ∷ b' ' ∷ (v ++ (13 ∷ 10 ∷ name_lines key vs)))

abbrev pub field_lines : Header → Str
field_lines [] = []
field_lines ((key, vs) ∷ h) = name_lines key vs ++ field_lines h

-- The head of an HTTP/1.1 response as it is written out: the version, the status with its text, CR
-- and LF, the lines of the header, CR and LF.
abbrev pub message_head : ℕ → Header → Str
message_head code h =
    codes "HTTP/1.1 "
    ++ (decimal code ++ (b' ' ∷ (status_text code ++ (13 ∷ 10 ∷ (field_lines h ++ 13 ∷ 10 ∷ [])))))

value_lines_lem : (key : Str) (vs : List Str) → value_lines key vs ≡ name_lines key vs
unfolding value_lines
value_lines_lem key [] = refl
value_lines_lem key (v ∷ vs) =
    ap (λ (x : Str). key ++ (b':' ∷ b' ' ∷ (v ++ (13 ∷ 10 ∷ x)))) (value_lines_lem key vs)

header_lines_lem : (h : Header) → header_lines h ≡ field_lines h
unfolding header_lines
header_lines_lem [] = refl
header_lines_lem ((key, vs) ∷ h) = rw (value_lines_lem key vs, header_lines_lem h) refl

head_lem : (code : ℕ) (h : Header) → head code h ≡ message_head code h
unfolding status_line
head_lem code h =
    (simp append_assoc)
    ∙ ap
        (λ (x : Str).
          codes "HTTP/1.1 "
          ++ (decimal code ++ (b' ' ∷ (status_text code ++ (13 ∷ 10 ∷ (x ++ 13 ∷ 10 ∷ []))))))
        (header_lines_lem h)

-- What a list of calls means: nothing before the first status or write; then one head,
-- with the headers set so far and the first status, 200 where a write comes first; then the bodies.
abbrev pub message : Header → List Call → Str
message h [] = []
message h (calls_write_header code ∷ cs) = message_head code h ++ bodies cs
message h (calls_write bytes ∷ cs) = message_head 200 h ++ (bytes ++ bodies cs)
message h (calls_set k v ∷ cs) = message (set k v h) cs
message h (calls_add k v ∷ cs) = message (add k v h) cs
message h (calls_flush ∷ cs) = message h cs

pub write_header_again : (code : ℕ) (w : Writer) → w.header_written ≡ true → write_header code w ≡ w
unfolding write_header
write_header_again code w written = ground arith

module _ (w : Writer) (fresh : w.header_written ≡ false) (up : w.alive ≡ true) where
  pub write_header_first :
      (code : ℕ)
      → ((write_header code w).header_written ≡ true)
        × ((write_header code w).alive ≡ true)
        × ((write_header code w).sent ≡ w.sent ++ head code w.header)
  unfolding write_header
  write_header_first code = (ground arith, ground arith, rw (fresh, up) (simp append_assoc))

  pub write_first :
      (bytes : Str)
      → ((write bytes w).1.header_written ≡ true)
        × ((write bytes w).1.alive ≡ true)
        × ((write bytes w).1.sent ≡ w.sent ++ (head status_ok w.header ++ bytes))
  unfolding write
  write_first bytes = (ground arith, ground arith, rw (fresh, up) (simp append_assoc))

pub write_again :
    (bytes : Str) (w : Writer)
    → w.alive ≡ true
    → w.header_written ≡ true
    → ((write bytes w).1.alive ≡ true)
      × ((write bytes w).1.header_written ≡ true)
      × ((write bytes w).1.sent ≡ w.sent ++ bytes)
unfolding write
write_again bytes w up written = (ground arith, ground arith, ground arith)

perform-bodies :
    (cs : List Call) (w : Writer)
    → w.header_written ≡ true
    → w.alive ≡ true
    → (perform_all w cs).sent ≡ w.sent ++ bodies cs
unfolding perform_all write
perform-bodies [] w written up = sym (append-nil w.sent)
perform-bodies (calls_write_header code ∷ cs) w written up =
    ap (λ (v : Writer). (perform_all v cs).sent) (write_header_again code w written)
    ∙ perform-bodies cs w written up
perform-bodies (calls_write bytes ∷ cs) w written up =
    let w' : Writer = (write bytes w).1 in
    let e : w'.sent ≡ w.sent ++ bytes = ground arith in
    perform-bodies cs w' (ground arith) (ground arith)
    ∙ ap (λ (s : Str). s ++ bodies cs) e
    ∙ append_assoc w.sent bytes (bodies cs)
perform-bodies (calls_set k v ∷ cs) w written up = perform-bodies cs _ written up
perform-bodies (calls_add k v ∷ cs) w written up = perform-bodies cs _ written up
perform-bodies (calls_flush ∷ cs) w written up = perform-bodies cs w written up

perform-message :
    (cs : List Call) (w : Writer)
    → w.header_written ≡ false
    → w.alive ≡ true
    → (perform_all w cs).sent ≡ w.sent ++ message w.header cs
unfolding perform_all write
perform-message [] w fresh up = sym (append-nil w.sent)
perform-message (calls_write_header code ∷ cs) w fresh up =
    let (written, up', e) = write_header_first w fresh up code in
    perform-bodies cs (write_header code w) written up'
    ∙ ap (λ (s : Str). s ++ bodies cs) e
    ∙ append_assoc w.sent (head code w.header) (bodies cs)
    ∙ ap (λ (x : Str). w.sent ++ (x ++ bodies cs)) (head_lem code w.header)
perform-message (calls_write bytes ∷ cs) w fresh up =
    let (written, up', e) = write_first w fresh up bytes in
    perform-bodies cs (write bytes w).1 written up'
    ∙ ap (λ (s : Str). s ++ bodies cs) e
    ∙ (simp append_assoc)
    ∙ ap (λ (x : Str). w.sent ++ (x ++ (bytes ++ bodies cs))) (head_lem status_ok w.header)
perform-message (calls_set k v ∷ cs) w fresh up = perform-message cs _ fresh up
perform-message (calls_add k v ∷ cs) w fresh up = perform-message cs _ fresh up
perform-message (calls_flush ∷ cs) w fresh up = perform-message cs w fresh up

-- Whatever calls a handler makes, in any order, a connection that takes all bytes has been sent
-- nothing if no status and no body is written; and else the status line of the first status, or of
-- 200 where a body comes first, the lines of the header as it is by then, each ended by CR and LF,
-- an empty line, and after it the bodies. Later statuses and headers have no effect. Names and
-- values are written as they are given.
pub sent-perform_all : (cs : List Call) → (perform_all new_writer cs).sent ≡ message [] cs
sent-perform_all cs = perform-message cs new_writer refl refl
