-- ===== src/Tcp/Link.antt =====
-- The client and the server of one connection, joined: what one side sends, the other has to read.
use gorpcbench.Prelude.{ℕ, ◌≡◌, refl, ap, ◌∙◌, List, [], ◌++◌, length, drop, drop-append}
use gorpcbench.Go.Conn.{Conn, healthy, feed, wrote, flushed}

-- A connection between two calls.
pub record IsIdle (c : Conn) : Type 0 where
  pub is_healthy : c.health ≡ healthy
  pub none_pending : c.pending ≡ []
  pub none_buffered : c.buffered ≡ []

abbrev pub sent_since : Conn → Conn → List ℕ
sent_since old new = drop (length old.sent) new.sent

-- One call: `op` runs until it waits for the answer, `serve` answers what `op` sent, and `op` goes
-- on with the answer. What `op` sends before it reads does not depend on the answer, so `op` is run
-- once with nothing to read to find its request.
module _ {ℓ κ} {X : Type ℓ} {Y : Type κ} where
  unfoldable pub exchange : (Conn → X × Conn) → (Conn → Y × Conn) → Conn × Conn → X × (Conn × Conn)
  exchange op serve (k, s) =
      let request = sent_since k (op (feed [] k)).1 in
      let s' = (serve (feed (s.pending ++ request) s)).1 in
      let (x, k') = op (feed (k.pending ++ sent_since s s') k) in (x, (k', s'))

module _ {ℓ κ} {X : Type ℓ} {Y : Type κ} (op : Conn → X × Conn) (serve : Conn → Y × Conn) where
  -- A call whose request the server answers with just the bytes that the call then takes.
  pub exchange_lem :
      (k s : Conn) (req reply : List ℕ) (x : X) (y : Y)
      → IsIdle k
      → IsIdle s
      → (op (feed [] k)).1.sent ≡ k.sent ++ (k.buffered ++ req)
      → serve (feed req s) ≡ (y, flushed (feed [] (wrote reply s)))
      → op (feed reply k) ≡ (x, feed [] (flushed (wrote req k)))
      → exchange op serve (k, s)
        ≡ (x, (feed [] (flushed (wrote req k)), feed [] (flushed (wrote reply s))))
  unfolding exchange
  exchange_lem k s req reply x y hk hs e1 e2 e3 =
      let asked : sent_since k (op (feed [] k)).1 ≡ req =
        ap (drop (length k.sent)) (e1 ∙ ap (λ b. k.sent ++ (b ++ req)) hk.none_buffered)
        ∙ drop-append k.sent req in
      let answered : sent_since s (flushed (feed [] (wrote reply s))) ≡ reply =
        ap (λ b. drop (length s.sent) (s.sent ++ (b ++ reply))) hs.none_buffered
        ∙ drop-append s.sent reply in
      let there : feed (s.pending ++ req) s ≡ feed req s =
        ap (λ b. feed (b ++ req) s) hs.none_pending in
      let back : feed (k.pending ++ reply) k ≡ feed reply k =
        ap (λ b. feed (b ++ reply) k) hk.none_pending in
      rw (asked, there, e2, answered, back, e3)

-- Both sides of a call are idle again.
pub after-IsIdle : (req : List ℕ) (c : Conn) → IsIdle c → IsIdle (feed [] (flushed (wrote req c)))
after-IsIdle req c h = record {
  is_healthy = h.is_healthy;
  none_pending = refl;
  none_buffered = refl;
}
