-- ===== src/Lib.antt =====
-- The state and the logic of the web client under frontend/src, a React application in TypeScript
-- that sells an activation service: users log in, choose a plan, pay, and follow their activation in
-- a queue. The code is translated function by function; what a component promises is stated apart
-- from it, for every input and every order of events.
--
-- The parts, and how they work together:
--   Utils/Url        frontend/src/utils/url.ts: sanitizeReturnTo, getDashboardReturnTo and
--                    getPostLoginReturnTo, which choose the page after a login.
--   Utils/Username   frontend/src/utils/username.ts: extractUsername, isValidUsername.
--   Utils/Format     frontend/src/utils/format.ts: maskUsername, formatWaitTime, formatRelativeTime.
--   Api/Types        what the client sends and receives, from frontend/src/types/api.ts.
--   Api/Client       frontend/src/api/client.ts: the tokens in memory, executeRefreshNetworkCall
--                    (refresh_request, finish_refresh), requestTokenRefresh and apiClient. `attempt`
--                    is apiClient as it is written, with its call of itself; `api_client` has the
--                    second attempt written out. Client/SingleFlight is the mutex of the refresh.
--   Auth             frontend/src/context/AuthContext.tsx: the session that React shows. It calls
--                    the client and takes the client's callbacks (`Notice`).
--   Queue            frontend/src/hooks/useQueuePolling.ts: the state (`View`) with startQueue,
--                    closeQueue, resetQueue and the recovery; Queue/Polling is the polling effect,
--                    Queue/Events everything that can happen to the hook, as a list of events.
--   Wizard           frontend/src/pages/dashboard/ActivationWizard.tsx: plan and device
--                    (handleSelectPlan, handleSelectPlatform) and the steps; Wizard/Lookup is
--                    handleVerifyUsername, Wizard/Contact handleContinueContact, Wizard/Events all
--                    that users and answers can do up to the payment, as a step relation;
--                    Wizard/Payment has handlePayWithCoin and handleCreateQrPayment, Wizard/AutoQr
--                    the effect that calls the latter, Wizard/Coupons handleApplyCoupon,
--                    handleRemoveCoupon and closeActiveQrOrder, Wizard/Orders onStatusChange and
--                    handleRenewQrOrder, Wizard/Watching pollQueue and pollProvider, and
--                    Wizard/Tickets handleRequestDownloadTicket and goldDaysLeft.
--   Wallet           frontend/src/pages/dashboard/WalletView.tsx: handleCreateTopup and onStatusChange;
--                    Wallet/Renewal is handleRenewTopup, Wallet/Ledger the transactions, and
--                    Wallet/Retries the events of the page.
--   Payment          frontend/src/hooks/usePaymentPolling.ts and usePaymentCountdown.ts.
--   Toast            frontend/src/context/ToastContext.tsx: the queue of toasts; Toast/Timer is the
--                    timer of one toast in frontend/src/components/common/ToastViewport.tsx.
--   Overlay          frontend/src/context/OverlayContext.tsx: the stack of layers;
--                    Overlay/ScrollLock is frontend/src/hooks/useScrollLock.ts.
--   Site             frontend/src/hooks/useSiteSettings.ts; Site/Routes is App, LandingEntry and
--                    MaintenanceRouteWrapper of frontend/src/App.tsx with ProtectedRoute and
--                    AdminRoute of frontend/src/components/auth and the effect of the login page;
--                    Site/Popup is frontend/src/components/common/GlobalAnnouncementPopup.tsx.
--   Hooks            frontend/src/hooks/useLiveRefresh.ts, useFocusTrap.ts and useReviews.ts, and
--                    frontend/src/context/ThemeContext.tsx.
--   Forms            frontend/src/pages/RegisterPage.tsx and LoginPage.tsx: validate, handleSubmit
--                    and the patterns for addresses and user names; Forms/Review is
--                    frontend/src/components/reviews/ReviewFormModal.tsx, and Forms/Pictures all its
--                    events.
--   Admin            frontend/src/components/admin/AdminPagination.tsx and
--                    frontend/src/pages/admin/AdminCoupons.tsx, with the form in Admin/Coupons and
--                    the table in Admin/CouponTable; Admin/Orders has the actions of
--                    frontend/src/pages/admin/AdminOrders.tsx, Admin/Listing its list and the actions on
--                    the provider, and Admin/History what is done with its dialogs; Admin/Users is
--                    frontend/src/pages/admin/AdminUsers.tsx.
--   Prelude          shared names, texts as lists of UTF-16 code units, and lemmas on lists.
--   Tests            the code on concrete inputs, and each theorem applied to some.
--
-- State and effects: a React state is a record and a setter a record update. An asynchronous
-- function is cut where it waits, and what comes back is an argument: `fetch` is a function from a
-- request and a state of the server to an answer and the next state, and stands for the network and
-- the server. An aborted fetch is an answer; timers are a time or a delay in the state. Effects run
-- again where React compares their dependencies. What the browser does on its own is an argument: how it
-- moves the focus, how it reads and writes dates, and the case of letters beyond ASCII.
--
-- Numbers: positions, times and counts are natural numbers, times in milliseconds. Only `attempt`
-- and `decimal_from` run on fuel: two levels of calls are enough for the first, since the second attempt is
-- marked as a retry; a number has fewer digits than its successor, which is the fuel of the second.
--
-- Not modelled: markup, styles and animation; the pages that only show what the server sends; the
-- other pages of the administration; the router, which tells the route of a path; the
-- server, which is written in Python.
pub mod Prelude
pub mod Utils
pub mod Api
pub mod Auth
pub mod Toast
pub mod Overlay
pub mod Queue
pub mod Wallet
pub mod Wizard
pub mod Payment
pub mod Site
pub mod Hooks
pub mod Admin
pub mod Forms
pub mod Tests
