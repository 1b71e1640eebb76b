-- ===== src/Wallet/Ledger.antt =====
-- The list of transactions of frontend/src/pages/dashboard/WalletView.tsx with its pages; a transaction
-- is its id.
use locketgoldhuydev.Prelude.{
  ℕ, ◌+◌, ◌-◌, ◌*◌, Bool, true, false, Option, none, some, List, ◌==◌, leb, if◌then◌else◌,
}
use locketgoldhuydev.Wallet.{Wallet}

abbrev pub limit : ℕ
limit = 10

pub record TransactionsResponse : Type 0 where
  pub success : Bool
  pub items : List ℕ
  pub total : ℕ

-- `loadTransactions` up to the request, which has the limit and the offset.
unfoldable pub load_transactions : (p : ℕ) → Wallet → Wallet × (ℕ × ℕ)
load_transactions p w = (record w { is_loading_txs = true }, (limit, p * limit))

-- The rest of it; `none` is `null` or a rejection.
unfoldable pub on_transactions : Option TransactionsResponse → Wallet → Wallet
on_transactions none w = record w { is_loading_txs = false }
on_transactions (some res) w =
    if res.success
    then record w { transactions = res.items; total_txs = res.total; is_loading_txs = false }
    else record w { is_loading_txs = false }

-- The buttons under the list.
unfoldable pub previous_page : Wallet → Wallet
previous_page w = if w.page == 0 then w else record w { page = w.page - 1 }

unfoldable pub next_page : Wallet → Wallet
next_page w = if leb w.total_txs ((w.page + 1) * limit) then w else record w { page = w.page + 1 }
