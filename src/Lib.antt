-- ===== src/Lib.antt =====
-- Programs of the blockchain tutorial: the balance transfer application over Hyperledger Fabric
-- with its chaincode, the scripts of the car project, and three applications over Ethereum, each a
-- contract with its pages: crowdfunding, auctions, and a vote.
--
-- The balance transfer application (超级账本教程/项目/balance-transfer) is a REST server. A request
-- passes the check of its token and the handler of its endpoint (app.js); the handler calls one
-- operation of app/*.js; the operation asks the Fabric SDK, which reaches peers, an orderer and the
-- certificate authority; the peers run the chaincode (artifacts/src/github.com/example_cc/node).
--
-- Files:
--   Js          exceptions, awaited computations that record their calls, truth values; Js.Number
--               is parseInt and toString; Js.Decimal compares texts as numbers; Js.Json reads
--               the text of an object; Js.Uri has decodeURI and decodeURIComponent; Js.Trace has
--               the rules for invariants of the calls.
--   Chaincode   example_cc.js: Init is init, Invoke is invoke, which finds a method as this[fcn]
--               does; move, delete and query are the methods. Chaincode.Ledger is the ledger after
--               the writes of a transaction are committed, and Chaincode.Supply the balances of all
--               holders together.
--   Fabric      the calls of the SDK, and their answers as a parameter; its children are
--               Client (app/helper.js), Endorsement, Hubs and Submission (app/invoke-transaction.js
--               and app/instantiate-chaincode.js), Channels (app/create-channel.js,
--               app/join-channel.js, app/update-anchor-peers.js, app/install-chaincode.js) and
--               Queries (app/query.js). Fabric.Calls and the modules named Rules say what a
--               predicate on calls must satisfy so that an operation keeps it.
--   Server      app.js: authenticate is the two middlewares that see the token, Server.Endpoints
--               has the handler of each endpoint.
--   Cars        超级账本教程/项目/汽车项目: Cars.Users is enrollAdmin.js and registerUser.js,
--               Cars.Query is query.js, Cars.Invoke is invoke.js.
--   Crowdfunding  以太坊教程/众筹应用/src: the contracts of contracts/Project.sol as state machines;
--               Crowdfunding.Page has the buttons of a payment in pages/projects/detail.js
--               (voteForPayment is vote_clicked, doPayment is pay_clicked), and Page.Forms the
--               forms: contributeProject of detail.js, createProject of create.js, and createPayment
--               of payments/create.js (create_payment_submitted). The test in renderPaymentRow is
--               can_do_payment. Page.Loading is getInitialProps of index.js, detail.js and
--               payments/create.js, and Page.View what index.js and detail.js render;
--               Page.Loaded sets the page beside the contract. Crowdfunding.Scripts is compile.js,
--               deploy.js and sampleProjects.js of scripts; Scripts.Compiled says what the first
--               leaves on the disk.
--   Auction     以太坊教程/拍卖应用/src: the contract EcommerceStore of contracts/EcommerceStore.sol, in
--               Auction.Bidding (addProductToStore, bid, revealBid) and Auction.Sale
--               (finalizeAuction and the calls of the escrow); Auction.Escrows is the contract of
--               contracts/Escrow.sol. Auction.Calls has the states that calls reach,
--               Auction.Later what later calls leave of a bid and of a finalized product, and
--               Auction.Accounts those that calls reach in the order of an auction, with the
--               sums of the money paid in. Of app/scripts/index.js, Auction.Countdown has
--               displayEndTime, and Auction.Page the handlers of the forms and buttons, with
--               Page.Details (the list and the details of products), Page.Form (how the form for
--               a new product is read), Page.Saving (how the product is stored) and Page.Start
--               (the chosen file and the start of the page). Page.Sections sets the forms beside
--               the contract. Auction.Seed is seed.js.
--   Voting      the contract of contracts/Voting.sol in the same directory, as a state machine;
--               Voting.Page is app/scripts/index0.js, and Page.Shown sets its vote
--               beside the contract, Page.LookedUp its look-up of a voter.
--   Prelude     shared names and lemmas.
--
-- State: an operation takes the calls that were made before it, the latest first, and returns how
-- it ends with the calls that were made by then. It ends with a value, a thrown exception, or never
-- (pending). The SDK is a function of the calls so far, so it may answer the same call differently
-- at different times, throw, or never answer; nothing is assumed of it unless a theorem says so.
-- The shim of the chaincode, the web token library and the server's JSON.parse are parameters as well. What
-- happens at the event hubs, and when the orderer answers, is a list of occurrences that the
-- environment chooses; Promise.all is evaluated after each. The state of a contract is its fields and
-- its balance; a call that reverts is none, and whether a receiver accepts a transfer is a
-- parameter. A transfer leaves the receiver too little gas to call back, so that calls do not nest.
-- A chain of promises that a page does not wait for is run where it is started; on a page, what
-- such chains show does not depend on each other.
--
-- Numbers: the results of parseInt are NaN or whole numbers. Doubles are exact up to 2^53 - 1, and
-- the theorems about sums and times state that range. Texts that are parsed are lists of code units, and
-- decimal digits are printed with fuel one above the number, which is more than its digits. The
-- sums of a contract's fields are modulo 2^256; balances are sums of ether that exists. The product
-- of a text and a price on the voting page, which are doubles, is a parameter.
--
-- Not modelled: log lines, except where they throw; that null or undefined is thrown; CORS, the parsers of request bodies and the
-- start of the server; the settings in config.js, which the SDK keeps; the policy constant of an
-- instantiation; the getters of the contracts, which return fields, but for those that the page of
-- a project and the look-up of a voter call. Of the crowdfunding application the layout, the routes,
-- and the scripts of scripts/origin, which name directories that are not there; the migrations of
-- the auction application.
-- Of the other programs of the repository all: those in Go and Python, and the copies of the
-- presentation library reveal.js.
pub mod Prelude
pub mod Js
pub mod Chaincode
pub mod Fabric
pub mod Server
pub mod Auction
pub mod Voting
pub mod Cars
pub mod Crowdfunding
