-- ===== src/Assign/Reorder.antt =====
-- For the sort by block address in `assign_params_per_worker` of helper/replay.c: what holds of
-- infos and containers in one order holds of them in any.
use mathlib.Core.List.{Perm, Permᴰ, Perm-prop}
use mathlib.Core.List.Perm
use mathlib.Core.List.Permᴰ
use mathlib.Core.Logic.{∥∥₁_elim}
use nvm_tools.Base.{List, ◌++◌, append_assoc}
use nvm_tools.Trace.Container.{TraceContainer}
use nvm_tools.Assign.Chunks.{joined}

exchange_front {ℓ} : {A : Type ℓ} (xs ys zs : List A) → Perm (xs ++ (ys ++ zs)) (ys ++ (xs ++ zs))
exchange_front xs ys zs =
    rw (append_assoc xs ys zs, append_assoc ys xs zs) at
      (Perm.append_right zs ∣ Permᴰ.append_comm xs ys ∣₁)

joined-Permᴰ : {ts us : List TraceContainer} → Permᴰ ts us → Perm (joined ts) (joined us)
joined-Permᴰ Permᴰ.nil = Perm.rfl
joined-Permᴰ (Permᴰ.cons {a = a} {b = b} e d) =
    rw (← e) (Perm.append_left a.infos_map (joined-Permᴰ d))
joined-Permᴰ (Permᴰ.swap {a = a} {b = b} {l = l} e f) =
    rw (← e, ← f) (exchange_front a.infos_map b.infos_map (joined l))
joined-Permᴰ (Permᴰ.trans d e) = Perm.trans (joined-Permᴰ d) (joined-Permᴰ e)

pub joined-Perm : (ts us : List TraceContainer) → Perm ts us → Perm (joined ts) (joined us)
joined-Perm ts us p = ∥∥₁_elim p Perm-prop joined-Permᴰ
