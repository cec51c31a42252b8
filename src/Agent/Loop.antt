-- ===== src/Agent/Loop.antt =====
-- The loop of `main` of guest-init/src/main.rs over the lines of its console, and that it serves what
-- crates/vz-ratchet/src sends.
use macos_vm_memory_ratchet.Prelude.{
  ◌≡◌, refl, ap, ◌∙◌, none, some, Result, ok, panicked, out_of_fuel, List, [], ◌∷◌, map,
}
use Prim.Native.String.{String}
use macos_vm_memory_ratchet.Agent.{Agent, Os, Reply, handle, serve}
use macos_vm_memory_ratchet.Agent.Lines.{read_command, write_reply}
use macos_vm_memory_ratchet.Agent.Requests.{
  Request, write_request, forwarded, meant, IsSmall, read_command-write_request,
}

abbrev written : Reply → Result (List String × Agent) → Result (List String × Agent)
written reply (ok (replies, a)) = ok (write_reply reply ∷ replies, a)
written reply (panicked what) = panicked what
written reply out_of_fuel = out_of_fuel

module _ (os : Os) where
  -- A line, then the rest of them; a blank line has no reply.
  unfoldable pub serve_lines : List String → Agent → Result (List String × Agent)
  unfolding handle
  serve_lines [] a = ok ([], a)
  serve_lines (line ∷ rest) a = elim (read_command line) [
    | none ↦ serve_lines rest a
    | some c ↦ elim (handle os c a) [
      | ok (reply, b) ↦ written reply (serve_lines rest b)
      | panicked what ↦ panicked what
      | out_of_fuel ↦ out_of_fuel
    ]
  ]

-- The lines that the harness passes on of what it is sent.
unfoldable pub passed_on : List String → List String
passed_on [] = []
passed_on (line ∷ rest) = elim (forwarded line) [
  | none ↦ passed_on rest
  | some guest_line ↦ guest_line ∷ passed_on rest
]

abbrev pub AllSmall : List Request → Type 0
AllSmall [] = Unit {0}
AllSmall (r ∷ rest) = IsSmall r × AllSmall rest

-- The replies of the abstract server as lines.
abbrev pub as_lines : Result (List Reply × Agent) → Result (List String × Agent)
as_lines (ok (replies, a)) = ok (map write_reply replies, a)
as_lines (panicked what) = panicked what
as_lines out_of_fuel = out_of_fuel

-- On the lines of requests with numbers that are `usize`, the loop does what the server of commands
-- does.
pub serve_lines-serve :
    (os : Os) (rs : List Request) (a : Agent)
    → AllSmall rs
    → serve_lines os (passed_on (map write_request rs)) a ≡ as_lines (serve os (map meant rs) a)
unfolding serve_lines passed_on serve
serve_lines-serve os [] a small = refl
serve_lines-serve os (r ∷ rest) a (small, smalls) =
    let (line, passed, read) = read_command-write_request r small in
    passed_cons passed
    ∙ (first line read ∙ go (λ b. serve_lines-serve os rest b smalls) (handle os (meant r) a))
  where
    lines : List String
    lines = passed_on (map write_request rest)

    passed_cons :
        {line : String}
        → forwarded (write_request r) ≡ some line
        → serve_lines os (passed_on (map write_request (r ∷ rest))) a
          ≡ serve_lines os (line ∷ lines) a
    passed_cons e = rw (e, passed_on)

    -- One command of a line that is read.
    first :
        (line : String)
        → read_command line ≡ some (meant r)
        → serve_lines os (line ∷ lines) a
          ≡ (elim (handle os (meant r) a) as (λ _. Result (List String × Agent)) [
            | ok (reply, b) ↦ written reply (serve_lines os lines b)
            | panicked what ↦ panicked what
            | out_of_fuel ↦ out_of_fuel
          ])
    first line e = rw (e, serve_lines)

    joined :
        (reply : Reply) (x : Result (List Reply × Agent))
        → written reply (as_lines x)
          ≡ as_lines (elim x as (λ _. Result (List Reply × Agent)) [
            | ok (replies, d) ↦ ok (reply ∷ replies, d)
            | panicked what ↦ panicked what
            | out_of_fuel ↦ out_of_fuel
          ])
    joined reply (ok (replies, d)) = refl
    joined reply (panicked what) = refl
    joined reply out_of_fuel = refl

    go :
        ((b : Agent) → serve_lines os lines b ≡ as_lines (serve os (map meant rest) b))
        → (x : Result (Reply × Agent))
        → (elim x as (λ _. Result (List String × Agent)) [
          | ok (reply, b) ↦ written reply (serve_lines os lines b)
          | panicked what ↦ panicked what
          | out_of_fuel ↦ out_of_fuel
        ])
          ≡ as_lines (elim x as (λ _. Result (List Reply × Agent)) [
            | ok (reply, b) ↦ elim (serve os (map meant rest) b) [
              | ok (replies, d) ↦ ok (reply ∷ replies, d)
              | panicked what ↦ panicked what
              | out_of_fuel ↦ out_of_fuel
            ]
            | panicked what ↦ panicked what
            | out_of_fuel ↦ out_of_fuel
          ])
    go ih (ok (reply, b)) = ap (written reply) (ih b) ∙ joined reply (serve os (map meant rest) b)
    go ih (panicked what) = refl
    go ih out_of_fuel = refl
