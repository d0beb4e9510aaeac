-- ===== src/Rpc/Provider/Serving/Closed.antt =====
-- How a connection ends.
use mcoro_rpc.Common.{
  arith, ℕ, zero, suc, ◌≡◌, ◌⊎◌, refl, subst, ◌∙◌, List, [], ◌∷◌, Bytes, Option, some, Bool, none,
  ◌==◌, Bool-cases, Option-cases, inl, inr,
}
use mcoro_rpc.Buffer.{read_able, move_read_index}
use mcoro_rpc.Stream.{Socket, End, End-cases}
use mcoro_rpc.Stream.Tcp.{TcpStream, read_stream, write_stream, close}
use mcoro_rpc.Codec.{TinyPbProtocol}
use mcoro_rpc.Codec.Decode.{decode, Decoded-cases}
use mcoro_rpc.Rpc.Provider.{Provider, handle_message, recycle_outer}
use mcoro_rpc.Rpc.Provider.Serving.{
  Served, hung_up, hang_up, ended, threw_out, unfinished, serve_fault, serve_messages, serve_buffer,
  serve_client,
}

-- A connection that has ended has closed its stream, and has told the kernel once to close the
-- descriptor that the stream had at first.
abbrev pub Closed : {Msg S Addr K : Type 0} → Option ℕ → Served Msg S Addr K → Type 0
Closed fd (hung_up provider s told) = (s.fd ≡ none) × (told ≡ fd)
Closed fd (ended provider s) = ⊥
Closed fd (threw_out provider s) = ⊥
Closed fd (unfinished provider s) = Unit {0}
Closed fd serve_fault = Unit {0}

-- The requests of a round leave the descriptor, whether an exception leaves them or not.
abbrev Serves : {Msg S Addr K : Type 0} → Option ℕ → Served Msg S Addr K → Type 0
Serves fd (ended provider s) = s.fd ≡ fd
Serves fd (threw_out provider s) = s.fd ≡ fd
Serves fd (hung_up provider s told) = ⊥
Serves fd (unfinished provider s) = Unit {0}
Serves fd serve_fault = Unit {0}

module _ {Msg S Addr K : Type 0} where
  Served-cases :
      (r : Served Msg S Addr K)
      → ((p : Provider Msg S Addr) × (s : TcpStream K) × (r ≡ ended p s))
        ⊎ (((p : Provider Msg S Addr) × (s : TcpStream K) × (r ≡ threw_out p s))
            ⊎ (((p : Provider Msg S Addr) × (s : TcpStream K) × (r ≡ unfinished p s))
                ⊎ (((p : Provider Msg S Addr) × (s : TcpStream K) × (fd : Option ℕ) × (r
                        ≡ hung_up p s fd))
                    ⊎ (r ≡ serve_fault))))
  Served-cases (ended p s) = inl (p, s, refl)
  Served-cases (threw_out p s) = inr (inl (p, s, refl))
  Served-cases (unfinished p s) = inr (inr (inl (p, s, refl)))
  Served-cases (hung_up p s fd) = inr (inr (inr (inl (p, s, fd, refl))))
  Served-cases serve_fault = inr (inr (inr (inr refl)))

module _ {K : Type 0} (socket : Socket K) where
  read_stream_fd :
      (fuel : ℕ) (s s' : TcpStream K) (end : End) (n : ℕ)
      → read_stream socket fuel s ≡ some (end, n, s')
      → s'.fd ≡ s.fd
  unfolding read_stream
  read_stream_fd fuel s s' end n e = ground arith

  write_stream_fd :
      (fuel : ℕ) (text : Bytes) (s s' : TcpStream K) (end : End)
      → write_stream socket fuel text s ≡ some (end, s')
      → s'.fd ≡ s.fd
  unfolding write_stream
  write_stream_fd fuel text s s' end e = ground arith

module _ {Msg S Addr K : Type 0} (socket : Socket K) where
  hang_up-Closed :
      (provider : Provider Msg S Addr) (s : TcpStream K) (fd : Option ℕ)
      → s.fd ≡ fd
      → Closed fd (hang_up socket provider s)
  unfolding close
  hang_up-Closed provider s fd e = (refl, e)

  serve_messages-Serves :
      (fuel : ℕ) (provider : Provider Msg S Addr) (s : TcpStream K) (ms : List TinyPbProtocol)
      (fd : Option ℕ)
      → s.fd ≡ fd
      → Serves fd (serve_messages socket fuel provider s ms)
  unfolding serve_messages
  serve_messages-Serves fuel provider s [] fd e = e
  serve_messages-Serves fuel provider s (m ∷ ms) fd e =
      elim (Option-cases (handle_message provider m)) [
        | inl f ↦ rw (f, serve_messages) tt
        | inr ((text, provider'), f) ↦ elim (Option-cases (write_stream socket fuel text s)) [
          | inl g ↦ rw (f, g, serve_messages) tt
          | inr ((end, s'), g) ↦
              let e' = write_stream_fd socket fuel text s s' end g ∙ e in
              elim (End-cases end) [
                | inl d ↦
                    rw (f, g, d, serve_messages) (serve_messages-Serves fuel provider' s' ms fd e')
                | inr (inl t) ↦ rw (f, g, t, serve_messages) e'
                | inr (inr q) ↦ rw (f, g, q, serve_messages) tt
              ]
        ]
      ]

  serve_buffer-Closed :
      (fuel : ℕ) (provider : Provider Msg S Addr) (s : TcpStream K) (fd : Option ℕ)
      (next : Provider Msg S Addr → TcpStream K → Served Msg S Addr K)
      → s.fd ≡ fd
      → ((p : Provider Msg S Addr) (s' : TcpStream K) → s'.fd ≡ fd → Closed fd (next p s'))
      → Closed fd (serve_buffer socket fuel provider s next)
  unfolding serve_buffer
  serve_buffer-Closed fuel provider s fd next h c =
      elim (Decoded-cases (decode fuel [] s.read_buffer)) [
        | inr (inl (msgs, b, e)) ↦ rw (e, serve_buffer) (hang_up-Closed provider _ fd h)
        | inr (inr (inl e)) ↦ rw (e, serve_buffer) tt
        | inr (inr (inr e)) ↦ rw (e, serve_buffer) tt
        | inl (msgs, b, e) ↦
            let s1 : TcpStream K = record s { read_buffer = b } in
            let kept = serve_messages-Serves fuel provider s1 msgs fd h in
            elim (Served-cases (serve_messages socket fuel provider s1 msgs)) [
              | inr (inl (p, s', f)) ↦
                  rw (e, f, serve_buffer) (hang_up-Closed p s' fd (subst (Serves fd) f kept))
              | inr (inr (inl (p, s', f))) ↦ rw (e, f, serve_buffer) tt
              | inr (inr (inr (inl (p, s', told, f)))) ↦ absurd (subst (Serves fd) f kept)
              | inr (inr (inr (inr f))) ↦ rw (e, f, serve_buffer) tt
              | inl (p, s', f) ↦
                  let n = read_able s'.read_buffer in
                  elim (Option-cases (move_read_index s'.read_buffer n)) [
                    | inl g ↦ rw (e, f, g, serve_buffer) tt
                    | inr (b', g) ↦
                        rw (e, f, g, serve_buffer)
                          (c (recycle_outer p) (record s' { read_buffer = b' })
                            (subst (Serves fd) f kept))
                  ]
            ]
      ]

  serve_client_hangs_up :
      (fuel rounds : ℕ) (stops : ℕ → Bool) (provider : Provider Msg S Addr) (s : TcpStream K)
      (fd : Option ℕ)
      → s.fd ≡ fd
      → Closed fd (serve_client socket fuel stops rounds provider s)
  unfolding serve_client
  serve_client_hangs_up fuel zero stops provider s fd h = tt
  serve_client_hangs_up fuel (suc rounds) stops provider s fd h = elim (Bool-cases (stops rounds)) [
    | inl told ↦ rw (told, serve_client) (hang_up-Closed provider s fd h)
    | inr goes ↦ elim (Option-cases (read_stream socket fuel s)) [
      | inl e ↦ rw (goes, e, serve_client) tt
      | inr ((end, n, s1), e) ↦
          let h1 = read_stream_fd socket fuel s s1 end n e ∙ h in
          elim (End-cases end) [
            | inr (inl f) ↦ rw (goes, e, f, serve_client) (hang_up-Closed provider s1 fd h1)
            | inr (inr f) ↦ rw (goes, e, f, serve_client) tt
            | inl f ↦ elim (Bool-cases (s1.read_buffer.write_index == s1.read_buffer.read_index)) [
              | inl g ↦ rw (goes, e, f, g, serve_client) (hang_up-Closed provider s1 fd h1)
              | inr g ↦
                  rw (goes, e, f, g, serve_client)
                    (serve_buffer-Closed fuel provider s1 fd _ h1
                      (λ p s' h'. serve_client_hangs_up fuel rounds stops p s' fd h'))
            ]
          ]
    ]
  ]

  -- However the loop over a connection ends, short of something undefined, its stream is closed, the
  -- kernel has been told once to close just the descriptor that the connection came with, and no
  -- exception leaves it.
  pub serve_client-Closed :
      (fuel rounds : ℕ) (stops : ℕ → Bool) (provider : Provider Msg S Addr) (s : TcpStream K)
      → Closed s.fd (serve_client socket fuel stops rounds provider s)
  serve_client-Closed fuel rounds stops provider s =
      serve_client_hangs_up fuel rounds stops provider s s.fd refl
