-- ===== src/Websocket/Binary/Serve.antt =====
-- The binary messages against the TCP server: a message is served as a request on a connection is.
use gorpcbench.Prelude.{ℕ, zero, suc, ◌≡◌, refl, ap, ◌∙◌, List, length, if◌then◌else◌}
use gorpcbench.Go.Int64.{sub64, is_positive}
use gorpcbench.Go.Errors.{Result, ok, err, stuck}
use gorpcbench.Go.Io.{◌>>◌, continue}
use gorpcbench.Go.Hex.{encode}
use gorpcbench.Go.Conn.{Conn, healthy, wrote, read, write, write_lem, health-read}
use gorpcbench.Tcp.Server
use gorpcbench.Websocket.Binary.{hex_room, write_anyway, to_hex_loop}

write_anyway_lem : (p : List ℕ) (c : Conn) → c.health ≡ healthy → write_anyway p c ≡ write p c
unfolding write_anyway
write_anyway_lem p c h = rw (write_lem p c h)

same_rounds :
    (fuel size : ℕ) (r : Result (List ℕ)) (d : Conn)
    → ((e : Conn) (m : ℕ) → e.health ≡ healthy → to_hex_loop fuel m e ≡ Server.to_hex_loop fuel m e)
    → d.health ≡ healthy
    → continue r (λ buf. write_anyway (encode buf) >> to_hex_loop fuel (sub64 size (length buf))) d
      ≡ continue r
          (λ buf. write (encode buf) >> Server.to_hex_loop fuel (sub64 size (length buf)))
          d
same_rounds fuel size (ok buf) d same h =
    rw (write_anyway_lem (encode buf) d h, write_lem (encode buf) d h)
      (same (wrote (encode buf) d) (sub64 size (length buf)) h)
same_rounds fuel size (err e) d same h = refl
same_rounds fuel size stuck d same h = refl

-- While writing does not fail, the loop of `cmdToHex` runs as that of the TCP server: it ends on the
-- same messages, and it fails to end on the same messages.
pub to_hex_loop-same :
    (fuel size : ℕ) (c : Conn)
    → c.health ≡ healthy
    → to_hex_loop fuel size c ≡ Server.to_hex_loop fuel size c
unfolding to_hex_loop Server.to_hex_loop
to_hex_loop-same zero size c h = refl
to_hex_loop-same (suc fuel) size c h =
    let (r, d) = read (hex_room size) c in
    ap (λ more. if is_positive size then more else (ok tt, c))
      (same_rounds fuel size r d (λ e m k. to_hex_loop-same fuel m e k)
        (health-read (hex_room size) c ∙ h))
