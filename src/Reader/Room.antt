-- ===== src/Reader/Room.antt =====
-- ngxe_reader_handler: the read buffer always has room for a read.
use nginx_engine.Base.{ℕ, ◌+◌, ◌-◌, ◌≤◌, ◌<◌, List, length, ◌≡◌, arith}
use nginx_engine.State.{Pv, World, Env, data_read}
use nginx_engine.Reader.{svgrow_size, grow_if_full, receive, after_recv, recv_block}

-- What the program relies on: SvGROW leaves a buffer of at least the size asked for, and a read
-- returns no more bytes than it was given room for.
pub record ReadLaws {S : Type 0} (e : Env S) : Type 0 where
  pub grow_enough : (len n : ℕ) → n ≤ e.grow len n
  pub recv_bounded : (s : S) (n : ℕ) (xs : List ℕ) → (e.recv s n).0 ≡ data_read xs → length xs ≤ n

-- The string and the byte behind it lie in the memory allocated for the scalar.
abbrev pub Fits : Pv → Type 0
Fits b = length b.bytes + 1 ≤ b.len

-- The size that a full buffer grows to is larger than its size, whatever the size of a page.
pub svgrow_size_grows : (pagesize len : ℕ) → len < svgrow_size pagesize (len + 16384)
unfolding svgrow_size
svgrow_size_grows pagesize len = ground arith

module _ {S : Type 0} (e : Env S) (l : ReadLaws e) where
  pub grow_if_full-room :
      (b : Pv) → Fits b → length (grow_if_full e b).bytes + 1 < (grow_if_full e b).len
  unfolding grow_if_full
  grow_if_full-room b h = ground (
    arith,
    svgrow_size_grows e.pagesize b.len,
    l.grow_enough b.len (svgrow_size e.pagesize (b.len + 16384)),
  )

  pub bytes-grow_if_full : (b : Pv) → (grow_if_full e b).bytes ≡ b.bytes
  unfolding grow_if_full
  bytes-grow_if_full b = ground arith

  -- If SvGROW gives at least what is asked for: at RECVAGAIN a buffer whose string fits gets room
  -- for at least one byte, so that the code always reads and never goes to CALLBACK with a full
  -- buffer.
  pub recv_block_reads :
      (cb : ℕ) (w : World S)
      → Fits w.reader_buffer
      → let w' = record w { reader_buffer = grow_if_full e w.reader_buffer } in
        (0 < w'.reader_buffer.len - length w'.reader_buffer.bytes - 1)
        × (recv_block e cb w ≡ after_recv e cb (receive e w').0 (receive e w').1)
  unfolding recv_block
  recv_block_reads cb w h = (
    omega (arith, grow_if_full-room w.reader_buffer h),
    ground (arith, grow_if_full-room w.reader_buffer h),
  )
