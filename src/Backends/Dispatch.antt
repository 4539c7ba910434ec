-- ===== src/Backends/Dispatch.antt =====
-- src/runtime/backend_registry.hpp: the backends as the dispatcher sees them. An output is the result with
-- the scratch pool that the call leaves.
pub mod Laws
use sci_compute_attention.Status.{Result, ok, err}
use sci_compute_attention.ScratchPool.{ScratchPool}
use sci_compute_attention.Dispatcher.{Backends}
use sci_compute_attention.Backends.{Env, AttentionResult}
use sci_compute_attention.Backends.Naive
use sci_compute_attention.Backends.Tiled
use sci_compute_attention.Backends.Flash
use sci_compute_attention.Backends.Decode
use sci_compute_attention.Backends.Paged

abbrev pub Output : Type 0
Output = AttentionResult × ScratchPool

-- A result with the state after it, the pool of an error being dropped.
abbrev pub with_pool : Result AttentionResult × ScratchPool → Result Output
with_pool (ok r, pool) = ok (r, pool)
with_pool (err e, pool) = err e

pub backends : Env → ScratchPool → Backends Output
backends env pool = record {
  naive_backend = record {
    supports = Naive.supports env;
    forward = λ q k v cfg. with_pool (Naive.forward env q k v cfg pool);
  };
  tiled_backend = record {
    supports = Tiled.supports env;
    forward = λ q k v cfg. with_pool (Tiled.forward env q k v cfg, pool);
  };
  flash_backend = record {
    supports = Flash.supports env;
    forward = λ q k v cfg. with_pool (Flash.forward env q k v cfg, pool);
  };
  decode_backend = record {
    supports = Decode.supports env;
    forward = λ q k v cfg. with_pool (Decode.forward env q k v cfg pool);
  };
  paged_backend = record {
    supports = Paged.supports env;
    forward = λ q k v cfg. with_pool (Paged.forward, pool);
  };
}
