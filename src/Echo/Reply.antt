-- ===== src/Echo/Reply.antt =====
-- What the dialogue sends.
use network_program.Prelude.{
  ℕ, suc, ◌-◌, ◌<◌, ◌≡◌, refl, ap, ◌∙◌, ◌⊎◌, inl, inr, List, [], ◌∷◌, ◌++◌, arith, ◌==◌,
  if◌then◌else◌, ne→==, length, take, drop, All, length-append, length-drop, take-append,
  set-append, done, write, write-lt, write-ge, minus_one, count,
}
use network_program.CString.{text}
use network_program.CString.Text.{
  before_crlf, NonNul-before_crlf, length-before_crlf, cut_rest, cut_line_lem, length-cut_rest,
  NonNul-text, behind_text, append-text, length-text,
}
use network_program.CString.Strlcat.{mystrlcat_lem}
use network_program.Echo.{
  buf_size, ok_suffix, make_reply, Round, waiting, over, overrun, Dialogue, receive_into, ends_by,
  send_recv_loop,
}

-- The reply to the bytes `bs`: their text up to the first CR or LF, and the suffix, cut at 511 bytes.
abbrev pub reply_to : List ℕ → List ℕ
reply_to bs = take (buf_size - 1) (before_crlf (text bs) ++ ok_suffix)

pub make_reply_lem :
    (buf bs : List ℕ)
    → length buf ≡ buf_size
    → length bs < buf_size
    → (buf' : List ℕ) × (make_reply (receive_into buf bs) (length bs) ≡ done buf')
      × (text buf' ≡ reply_to bs)
      × (length buf' ≡ buf_size)
unfolding make_reply
make_reply_lem buf bs size lt =
    let cells = receive_into buf bs in
    let n : length cells ≡ buf_size =
      omega (arith, length-append bs (drop (length bs) buf), length-drop (length bs) buf) in
    let rest = drop (suc (length bs)) cells in
    let s = text bs in
    let junk = cut_rest s (behind_text bs rest) in
    let ended : write cells (length bs) 0 ≡ done (s ++ 0 ∷ behind_text bs rest) =
      write-lt cells (length bs) 0 (omega arith)
      ∙ ap done (
          set-append cells (length bs) 0 (omega arith)
          ∙ ap (λ k. k ++ 0 ∷ rest) (take-append bs (drop (length bs) buf))
          ∙ append-text bs rest) in
    let cut = cut_line_lem s (behind_text bs rest) (NonNul-text bs) in
    let cut_size : length (before_crlf s ++ 0 ∷ junk) ≡ buf_size = omega (
      arith,
      length-append (before_crlf s) (0 ∷ junk),
      length-cut_rest s (behind_text bs rest),
      length-append s (0 ∷ behind_text bs rest),
      ap length (append-text bs rest),
      length-append bs (0 ∷ rest),
      length-drop (suc (length bs)) cells,
    ) in
    let joined_size = length-append (before_crlf s) (0 ∷ junk) in
    let (buf', joined, sent, same, _) =
      mystrlcat_lem (before_crlf s) junk ok_suffix buf_size (NonNul-before_crlf s (NonNul-text bs))
        (omega arith) (omega (arith, length-before_crlf s, length-text bs)) (omega arith) in
    (buf', rw (ended, cut, joined), sent, same ∙ cut_size)

-- The dialogue by the replies alone, with no buffer.
unfoldable pub dialogue : List Round → Dialogue
dialogue [] = ends_by waiting
dialogue (r ∷ rs) =
    let rest = dialogue rs in
    elim r.rv [
      | minus_one ↦ ends_by over
      | count len ↦
          if len == 0
          then ends_by over
          else if r.send_ok
          then record rest { sent = reply_to r.stored ∷ rest.sent }
          else record { sent = reply_to r.stored ∷ []; ending = over }
    ]

-- The receive failed, or stored as many bytes as it says and fewer than the array holds.
abbrev pub Fits : Round → Type 0
Fits r = (r.rv ≡ minus_one) ⊎ ((r.rv ≡ count (length r.stored)) × (length r.stored < buf_size))

-- While each receive stores fewer than 512 bytes, the dialogue never writes outside of its array,
-- and its replies are those to the bytes of the same pass: the text up to the first CR or LF,
-- followed by ":OK" and CR LF, in at most 511 bytes. Nothing of an earlier pass shows. It is over
-- at the first failed receive, end of file or failed send, and not before.
pub send_recv_loop-dialogue :
    (buf : List ℕ) (rs : List Round)
    → length buf ≡ buf_size
    → All Fits rs
    → send_recv_loop buf rs ≡ dialogue rs
unfolding send_recv_loop dialogue
send_recv_loop-dialogue buf [] size h = refl
send_recv_loop-dialogue buf (r ∷ rs) size (inl failed, h) = rw failed
send_recv_loop-dialogue buf (r ∷ rs) size (inr (len, lt), h) =
    let (buf', runs, sent, size') = make_reply_lem buf r.stored size lt in
    rw (len, runs, sent, send_recv_loop-dialogue buf' rs size' h)

-- A receive that fills all 512 bytes makes the loop write its NUL outside of the array.
pub send_recv_loop_overrun :
    (buf : List ℕ) (r : Round) (rs : List Round)
    → length buf ≡ buf_size
    → length r.stored ≡ buf_size
    → r.rv ≡ count (length r.stored)
    → (send_recv_loop buf (r ∷ rs)).ending ≡ overrun
unfolding send_recv_loop make_reply
send_recv_loop_overrun buf r rs size full len =
    let n = length-append r.stored (drop (length r.stored) buf) in
    rw (
      len,
      ne→== (length r.stored) 0 (omega arith),
      write-ge (receive_into buf r.stored) (length r.stored) 0
          (omega (arith, length-drop (length r.stored) buf)),
    )
