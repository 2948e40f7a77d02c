-- ===== src/Platform/Clint/Transport.antt =====
-- The registers of the core-local interruptor as the bus reaches them: `transport` of vp/src/core/common/clint.h with its
-- ranges and callbacks.
use dse_vp.Base.{ℕ, ◌+◌, ◌-◌, ◌*◌, ◌/◌, ◌%◌, ◌^◌, true, false, Option, some, List, [], ◌∷◌}
use dse_vp.Tlm.{Response}
use dse_vp.Tlm.Bytes.{load, to_word}
use dse_vp.Platform.Registers.{RegisterRange, no_pre, no_post, route_read, route_write}
use dse_vp.Platform.Clint.{Clint, pre_read_mtime, post_write_mtimecmp, post_write_msip}

-- The bytes of an array of words of `n` bytes each, and the array of some bytes.
abbrev pub bytes_of : ℕ → (ℕ → ℕ) → ℕ → ℕ
bytes_of n words k = words (k / n) / 256 ^ (k % n) % 256

abbrev pub words_of : ℕ → (ℕ → ℕ) → ℕ → ℕ
words_of n bytes i = to_word (load n (i * n) bytes)

module _ (number_of_cores : ℕ) (notify : Option ℕ → ℕ → Option ℕ) (now delay : ℕ) where
  -- `mtime` is written before each read of it.
  unfoldable pub regs_mtime : RegisterRange Clint
  regs_mtime = record {
    start = 0xBFF8;
    end = 0xBFFF;
    mem = record {
      view = λ s. bytes_of 8 (λ i. s.mtime);
      update = λ d s. record s { mtime = words_of 8 d 0 };
    };
    readonly = false;
    alignment = 4;
    pre_write_callback = no_pre;
    post_write_callback = no_post;
    pre_read_callback = λ addr size s. some (true, pre_read_mtime now delay s);
    post_read_callback = no_post;
  }

  unfoldable pub regs_mtimecmp : RegisterRange Clint
  regs_mtimecmp = record {
    start = 0x4000;
    end = 0x4000 + 8 * number_of_cores - 1;
    mem = record {
      view = λ s. bytes_of 8 s.mtimecmp;
      update = λ d s. record s { mtimecmp = words_of 8 d };
    };
    readonly = false;
    alignment = 4;
    pre_write_callback = no_pre;
    post_write_callback = λ addr size s. some (post_write_mtimecmp notify now delay s);
    pre_read_callback = no_pre;
    post_read_callback = no_post;
  }

  unfoldable pub regs_msip : RegisterRange Clint
  regs_msip = record {
    start = 0;
    end = 4 * number_of_cores - 1;
    mem = record {
      view = λ s. bytes_of 4 s.msip;
      update = λ d s. record s { msip = words_of 4 d };
    };
    readonly = false;
    alignment = 4;
    pre_write_callback = no_pre;
    post_write_callback = λ addr size s. post_write_msip number_of_cores addr s;
    pre_read_callback = no_pre;
    post_read_callback = no_post;
  }

  abbrev pub register_ranges : List (RegisterRange Clint)
  register_ranges = regs_mtime ∷ regs_mtimecmp ∷ regs_msip ∷ []

  unfoldable pub transport_read : ℕ → List ℕ → Clint → Response (List ℕ × Clint)
  transport_read = route_read register_ranges

  unfoldable pub transport_write : ℕ → List ℕ → Clint → Response Clint
  transport_write = route_write register_ranges
