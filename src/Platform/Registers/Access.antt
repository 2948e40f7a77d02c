-- ===== src/Platform/Registers/Access.antt =====
-- Where an access to a list of ranges goes.
use dse_vp.Base.{
  ℕ, ◌≡◌, ap, ◌∙◌, Bool, true, false, not, ◌&&◌, Option, none, some, List, ◌∷◌, length,
  if◌then◌else◌,
}
use dse_vp.Tlm.{Response, ok, failure}
use dse_vp.Tlm.Bytes.{store}
use dse_vp.Platform.Registers.{
  RegisterRange, contains, to_local, fits, aligned, write, process_write, route_write,
}

module _ {M : Type 0} (r : RegisterRange M) (rs : List (RegisterRange M)) (addr : ℕ) (src : List ℕ)
    (m : M) where
  pub route_write-skip :
      contains r addr ≡ false → route_write (r ∷ rs) addr src m ≡ route_write rs addr src m
  unfolding route_write
  route_write-skip e =
      ap (λ b. if b then process_write r addr src m else route_write rs addr src m) e

  -- What follows the callback before a write.
  abbrev pub after_pre : Option (Bool × M) → Response M
  after_pre none = failure
  after_pre (some (false, m')) = ok m'
  after_pre (some (true, m')) =
      elim (r.post_write_callback (to_local r addr) (length src)
        (r.mem.update (store (to_local r addr) src (r.mem.view m')) m')) [
          | none ↦ failure
          | some m'' ↦ ok m''
        ]

  pub route_write-here :
      contains r addr ≡ true
      → (aligned r addr (length src) && not r.readonly) ≡ true
      → fits r addr (length src) ≡ true
      → route_write (r ∷ rs) addr src m
        ≡ after_pre (r.pre_write_callback (to_local r addr) (length src) m)
  unfolding route_write process_write write
  route_write-here e a f =
      ap (λ b. if b then process_write r addr src m else route_write rs addr src m) e
      ∙ ap (λ b. if b then write r addr src m else failure) a
      ∙ ap
          (λ b.
            if b
            then after_pre (r.pre_write_callback (to_local r addr) (length src) m)
            else failure)
          f
