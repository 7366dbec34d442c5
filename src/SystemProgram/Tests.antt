-- ===== src/SystemProgram/Tests.antt =====
-- Concrete instructions for system_program.rs.
use bokken.Prelude.{◌<◌, ◌^◌, ◌≡◌, refl, true, some, List, [], ◌∷◌, arith}
use bokken.Prelude.Result.{ok, err}
use bokken.Prelude.Post.{Post}
use bokken.Prelude.Maps.{get, sum, Unique}
use bokken.Errors.{ProgramError}
use bokken.Account.{AccountMeta, default_account}
use bokken.SystemProgram.{
  Host, SystemState, exec, exec_instruction, create_account, transfer, transfer_with_seed,
}
use bokken.SystemProgram.Lamports.{Settles, total}
use bokken.SystemProgram.Creating.{create_account_lem, new_after}
use bokken.SystemProgram.Conserving.{exec-Settles, transfer_fails}

-- Every instruction is read as the creation of account 2 with 40 lamports and two bytes.
abbrev creating_host : Host
creating_host = record {
  decode_instruction = λ bytes. some (create_account 40 2 9);
  create_with_seed = λ base seed owner. ok base;
  show_size = λ n. "some";
}

abbrev first_meta : AccountMeta
first_meta = record { pubkey = 1; is_signer = true; is_writable = true }

abbrev second_meta : AccountMeta
second_meta = record { pubkey = 2; is_signer = true; is_writable = true }

abbrev both_metas : List AccountMeta
both_metas = first_meta ∷ second_meta ∷ []

abbrev funded_state : SystemState
funded_state = record {
  logs = [];
  account_datas = (1, record default_account { lamports = 100 }) ∷ (2, default_account) ∷ [];
}

first_there : get 1 funded_state.account_datas ≡ some (record default_account { lamports = 100 })
unfolding get
first_there = refl

second_there : get 2 funded_state.account_datas ≡ some default_account
unfolding get
second_there = refl

funded_Unique : Unique funded_state.account_datas
unfolding get
funded_Unique = (refl, (refl, tt))

funded_fits : total funded_state.account_datas < 2 ^ 64
unfolding sum
funded_fits = omega arith

exec-Settles_example :
    Post
      (exec creating_host (0 ∷ []) both_metas)
      funded_state
      (λ _ t. Settles funded_state.account_datas t.account_datas)
exec-Settles_example =
    exec-Settles creating_host funded_state funded_Unique funded_fits (0 ∷ []) both_metas

transfer_fails_example :
    ((e : ProgramError) × ((exec_instruction creating_host (transfer 5) both_metas funded_state).0
        ≡ err e))
    × ((e : ProgramError) × ((exec_instruction creating_host
            (transfer_with_seed 5 "seed" 0)
            both_metas
            funded_state).0
          ≡ err e))
transfer_fails_example = transfer_fails creating_host 5 "seed" 0 both_metas funded_state

create_account_lem_example :
    let (r, t) = exec_instruction creating_host (create_account 40 2 9) both_metas funded_state in
    (r ≡ ok tt) × (t.logs ≡ []) × (get 2 t.account_datas ≡ some (new_after default_account 40 2 9))
create_account_lem_example =
    create_account_lem creating_host first_meta second_meta [] 40 2 9
      (record default_account { lamports = 100 }) default_account funded_state 2 refl refl refl refl
      (λ e. omega arith) first_there second_there refl (omega arith) (omega arith)
